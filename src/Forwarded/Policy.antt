-- ===== src/Forwarded/Policy.antt =====
-- runtime/forwarded/policy.go. Package net/netip and `net.SplitHostPort` are the fields of `Net`.
use nise_and_go.Common.{
  ℕ, ◌+◌, ◌-◌, Bool, true, false, ◌&&◌, ◌||◌, not, List, [], ◌∷◌, ◌++◌, Option, none, some, ltb,
  ◌==◌, if◌then◌else◌, length, get_elem?, map,
}
use nise_and_go.Common.Int.{ℤ, pos, negsuc}
use nise_and_go.Common.Text.{Bytes, codes, str_eq, is_empty, between, all_of, split}
use nise_and_go.Common.Space.{trim_space}
use nise_and_go.Common.Result.{Result, ok, err, ◌>>◌, fail_if}

abbrev pub max_hops : ℕ
max_hops = 8

abbrev pub max_forwarded_entries : ℕ
max_forwarded_entries = 64

abbrev pub max_header_bytes : ℕ
max_header_bytes = 4096

abbrev pub max_host_bytes : ℕ
max_host_bytes = 255

pub data PolicyError : Type 0 where
  hops_bounds networks_unusable : PolicyError

-- Addresses `A` (none is the invalid one), prefixes `N`, and what is asked of them.
pub record Net (A N : Type 0) : Type 0 where
  pub parse_addr : Bytes → Option A
  -- `ParseAddrPort`, and the address of the result.
  pub parse_addr_port : Bytes → Option A
  pub split_host_port : Bytes → Option Bytes
  pub unmap : A → A
  pub prefix_valid : N → Bool
  -- `n.Addr() == n.Masked().Addr()`
  pub prefix_masked : N → Bool
  pub prefix_contains : N → A → Bool
  pub parse_prefix : Bytes → Option N
  -- `PrefixFrom(a, a.BitLen())`
  pub single_host : A → N

pub record Policy (N : Type 0) : Type 0 where
  pub hops : ℕ
  pub networks : List N

-- An entry of the list: `none` is a failure.
unfoldable pub parse_entry : {A N : Type 0} → Net A N → Bytes → Option N
parse_entry net entry =
    if is_empty entry
    then none
    else if not (all_of (λ c. not (c == b'/')) entry)
    then elim (net.parse_prefix entry) [
      | none ↦ none
      | some p ↦ if net.prefix_masked p then some p else none
    ]
    else elim (net.parse_addr entry) [ none ↦ none | some a ↦ some (net.single_host a) ]

unfoldable pub parse_entries : {A N : Type 0} → Net A N → List Bytes → Option (List N)
unfolding parse_entry trim_space
parse_entries net [] = some []
parse_entries net (e ∷ es) = elim (parse_entry net (trim_space e)) [
  | none ↦ none
  | some n ↦ elim (parse_entries net es) [ none ↦ none | some ns ↦ some (n ∷ ns) ]
]

unfoldable pub parse_networks : {A N : Type 0} → Net A N → Bytes → Result PolicyError (List N)
unfolding parse_entries split
parse_networks net value =
    let trimmed = trim_space value in
    if is_empty trimmed then ok [] else elim (parse_entries net (split b',' trimmed)) [
      | none ↦ err networks_unusable
      | some ns ↦ ok ns
    ]

-- The number of hops is a Go int; one in bounds is a natural number.
unfoldable pub new_policy : {A N : Type 0} → Net A N → ℤ → List N → Result PolicyError (Policy N)
unfolding all_of
new_policy net (negsuc n) networks = err hops_bounds
new_policy net (pos hops) networks = do
  fail_if (ltb max_hops hops) hops_bounds
  fail_if (not (all_of (λ n. net.prefix_valid n && net.prefix_masked n) networks)) networks_unusable
  fail_if (hops == 0 && not (is_empty networks)) networks_unusable
  ok (record { hops = hops; networks = networks })

-- `p.TrustsForwardedHeaders()`
unfoldable pub trusts_forwarded_headers : {N : Type 0} → Policy N → Bool
trusts_forwarded_headers p = ltb 0 p.hops

-- The inner loop of `nthFromRightOf`: the entries of one value, after those already taken.
unfoldable pub take_entries : List Bytes → List Bytes → Option (List Bytes)
unfolding trim_space
take_entries entries [] = some entries
take_entries entries (e ∷ es) =
    let rest = take_entries (entries ++ trim_space e ∷ []) es in
    if length entries == max_forwarded_entries then none else rest

-- The outer loop, over the repetitions of the header.
unfoldable pub flatten : List Bytes → List Bytes → Option (List Bytes)
unfolding take_entries split
flatten entries [] = some entries
flatten entries (v ∷ vs) =
    if ltb max_header_bytes (length v)
    then none
    else elim (take_entries entries (split b',' v)) [ none ↦ none | some more ↦ flatten more vs ]

unfoldable pub nth_from_right : {T : Type 0} → List Bytes → ℕ → (Bytes → Option T) → Option T
unfolding flatten
nth_from_right values hops parse = elim (flatten [] values) [
  | none ↦ none
  | some entries ↦
      if ltb (length entries) hops
      then none
      else elim (get_elem? entries (length entries - hops)) [ none ↦ none | some e ↦ parse e ]
]

-- `strings.ToLower` of an ASCII letter. (No other character has one of the letters h, t, p, s as its
-- lower case, so `parse_scheme` reads other bytes as they are.)
abbrev lower : ℕ → ℕ
lower c = if between b'A' b'Z' c then c + 32 else c

pub data Scheme : Type 0 where
  https http : Scheme

unfoldable pub parse_scheme : Bytes → Option Scheme
parse_scheme entry =
    let lowered = map lower entry in
    if str_eq lowered (codes "https")
    then some https
    else if str_eq lowered (codes "http")
    then some http
    else none

abbrev pub host_character : ℕ → Bool
host_character c =
    between b'a' b'z' c
    || between b'A' b'Z' c
    || between b'0' b'9' c
    || c == b'.'
    || c == b'-'
    || c == b':'
    || c == b'['
    || c == b']'

unfoldable pub parse_host : Bytes → Option Bytes
unfolding all_of
parse_host entry =
    if is_empty entry || ltb max_host_bytes (length entry)
    then none
    else if all_of host_character entry
    then some entry
    else none

-- `net.SplitHostPort`, and the address of the host.
abbrev split_address : {A N : Type 0} → Net A N → Bytes → Option A
split_address net entry = elim (net.split_host_port entry) [
  | none ↦ none
  | some host ↦ elim (net.parse_addr host) [ none ↦ none | some a ↦ some (net.unmap a) ]
]

unfoldable pub parse_forwarded_address : {A N : Type 0} → Net A N → Bytes → Option A
parse_forwarded_address net entry =
    if is_empty entry || ltb max_host_bytes (length entry)
    then none
    else elim (net.parse_addr entry) [
      | some a ↦ some (net.unmap a)
      | none ↦ elim (net.parse_addr_port entry) [
        | some a ↦ some (net.unmap a)
        | none ↦ split_address net entry
      ]
    ]

-- `none` is the invalid address.
unfoldable pub peer_address : {A N : Type 0} → Net A N → Bytes → Option A
peer_address net remote_addr = elim (net.parse_addr_port remote_addr) [
  | some a ↦ some (net.unmap a)
  | none ↦ elim (net.parse_addr remote_addr) [
    | some a ↦ some (net.unmap a)
    | none ↦ split_address net remote_addr
  ]
]

unfoldable pub any_network : {A N : Type 0} → Net A N → List N → A → Bool
any_network net [] a = false
any_network net (n ∷ ns) a = net.prefix_contains n a || any_network net ns a

unfoldable pub permits_peer : {A N : Type 0} → Net A N → Policy N → Option A → Bool
unfolding any_network
permits_peer net p none = is_empty p.networks
permits_peer net p (some a) =
    if is_empty p.networks then true else any_network net p.networks (net.unmap a)

-- http.Request, as far as it is read.
pub record HttpRequest : Type 0 where
  pub remote_addr : Bytes
  pub tls : Bool
  pub host : Bytes
  pub forwarded_for : List Bytes
  pub forwarded_proto : List Bytes
  pub forwarded_host : List Bytes

pub record Request (A : Type 0) : Type 0 where
  pub client_ip : Option A
  pub scheme : Scheme
  pub host : Bytes
  pub trusted : Bool

abbrev pub direct_scheme : HttpRequest → Scheme
direct_scheme r = if r.tls then https else http

abbrev or_else : {T : Type 0} → T → Option T → T
or_else d none = d
or_else d (some t) = t

-- The view of a request that takes nothing from its headers.
abbrev pub direct : {A N : Type 0} → Net A N → HttpRequest → Request A
direct net r = record {
  client_ip = peer_address net r.remote_addr;
  scheme = direct_scheme r;
  host = r.host;
  trusted = false;
}

unfoldable pub resolve : {A N : Type 0} → Net A N → Policy N → HttpRequest → Request A
unfolding peer_address permits_peer nth_from_right parse_forwarded_address parse_scheme parse_host
resolve net p r =
    if p.hops == 0 || not (permits_peer net p (peer_address net r.remote_addr))
    then direct net r
    else elim (nth_from_right r.forwarded_for p.hops (parse_forwarded_address net)) [
      | none ↦ direct net r
      | some client ↦ record {
        client_ip = some client;
        scheme = or_else (direct_scheme r) (nth_from_right r.forwarded_proto p.hops parse_scheme);
        host = or_else r.host (nth_from_right r.forwarded_host p.hops parse_host);
        trusted = true;
      }
    ]
