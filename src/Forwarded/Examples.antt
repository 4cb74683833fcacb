-- ===== src/Forwarded/Examples.antt =====
-- Tests of runtime/forwarded, and its theorems at concrete inputs.
use nise_and_go.Common.{◌<◌, ◌≡◌, refl, true, false, List, [], ◌∷◌, some, none}
use nise_and_go.Common.Int.{pos}
use nise_and_go.Common.Text.{Bytes, codes, str_eq}
use nise_and_go.Common.Result.{ok}
use nise_and_go.Forwarded.Policy.{
  Net, Policy, HttpRequest, new_policy, flatten, resolve, permits_peer, peer_address,
  parse_forwarded_address,
}
use nise_and_go.Forwarded.Trusted.{Gives, resolve_trusted}
use nise_and_go.Forwarded.Spoofing.{client_unforgeable}

-- Every text is an address, and every prefix is one address.
abbrev texts : Net Bytes Bytes
texts = record {
  parse_addr = λ s. some s;
  parse_addr_port = λ s. none;
  split_host_port = λ s. none;
  unmap = λ a. a;
  prefix_valid = λ n. true;
  prefix_masked = λ n. true;
  prefix_contains = str_eq;
  parse_prefix = λ s. none;
  single_host = λ a. a;
}

abbrev one_proxy : Policy Bytes
one_proxy = record { hops = 1; networks = codes "edge" ∷ [] }

one_proxy_made : new_policy texts (pos 1) (codes "edge" ∷ []) ≡ ok one_proxy
unfolding new_policy
one_proxy_made = refl

abbrev arriving : List Bytes → HttpRequest
arriving values = record {
  remote_addr = codes "edge";
  tls = false;
  host = codes "app";
  forwarded_for = values;
  forwarded_proto = codes "HTTPS" ∷ [];
  forwarded_host = [];
}

abbrev honest : HttpRequest
honest = arriving (codes "client" ∷ [])

abbrev forged : HttpRequest
forged = arriving (codes "bank, 10.0.0.1" ∷ codes " client" ∷ [])

honest_entries : flatten [] honest.forwarded_for ≡ some (codes "client" ∷ [])
unfolding flatten
honest_entries = refl

forged_entries :
    flatten [] forged.forwarded_for ≡ some (codes "bank" ∷ codes "10.0.0.1" ∷ codes "client" ∷ [])
unfolding flatten
forged_entries = refl

client_unforgeable_example :
    (resolve texts one_proxy honest).client_ip ≡ (resolve texts one_proxy forged).client_ip
client_unforgeable_example =
    client_unforgeable texts one_proxy honest forged [] (codes "bank" ∷ codes "10.0.0.1" ∷ []) []
      (codes "client") refl refl honest_entries forged_entries

attributed : (resolve texts one_proxy forged).client_ip ≡ some (codes "client")
unfolding resolve str_eq
attributed = refl

forged_trusted : (resolve texts one_proxy forged).trusted ≡ true
unfolding resolve str_eq
forged_trusted = refl

resolve_trusted_example :
    (0 < one_proxy.hops)
    × (permits_peer texts one_proxy (peer_address texts forged.remote_addr) ≡ true)
    × (a : Bytes) × Gives forged.forwarded_for one_proxy.hops (parse_forwarded_address texts) a
    × ((resolve texts one_proxy forged).client_ip ≡ some a)
resolve_trusted_example = (resolve_trusted texts one_proxy forged).0 forged_trusted
