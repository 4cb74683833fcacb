-- ===== src/Password/Policy/Verified.antt =====
-- What a policy wrote, it verifies, under every set that it accepts.
use nise_and_go.Common.{
  ℕ, ◌≡◌, refl, sym, ap, ◌∙◌, ◌⊎◌, inl, inr, false, not, List, [], ◌∷◌, Option, none, some, arith,
  length, subst, Option-cases,
}
use nise_and_go.Common.Text.{Bytes, str_eq, All}
use nise_and_go.Common.Result.{ok}
use nise_and_go.Base64.Encoded.{IsByte}
use nise_and_go.Password.Params.{Params, same_cost, distinct, distinct_from, key_bytes}
use nise_and_go.Password.Encoding.{encode_hash, decode_hash, find_cost, stored_params}
use nise_and_go.Password.Encoding.RoundTrip.{Fits, IsSalt, decode_hash-encode_hash}
use nise_and_go.Password.Policy.{Policy, check_secret, hash_with, new_policy, verify}

abbrev pub In : Params → List Params → Type 0
In p [] = ⊥
In p (q ∷ sets) = (p ≡ q) ⊎ In p sets

abbrev costs : Params → Params
costs p = stored_params (p.memory_kib, p.iterations, p.parallelism)

-- A set behind one that is distinct from it has another cost.
distinct_from-other :
    (a p : Params) (sets : List Params)
    → distinct_from a sets ≡ none
    → In p sets
    → same_cost a (costs p) ≡ false
unfolding distinct_from same_cost
distinct_from-other a p [] h m = absurd m
distinct_from-other a p (b ∷ sets) h (inl e) = ground (arith, h, e)
distinct_from-other a p (b ∷ sets) h (inr m) = distinct_from-other a p sets (ground (arith, h)) m

find_cost-In :
    (sets : List Params) (p : Params)
    → distinct sets ≡ none
    → In p sets
    → find_cost sets (costs p) ≡ some p
unfolding find_cost distinct
find_cost-In [] p h m = absurd m
find_cost-In (a ∷ sets) p h (inl e) = ground (arith, e, same_cost)
find_cost-In (a ∷ sets) p h (inr m) = elim (Option-cases (distinct_from a sets)) [
  | inl n ↦
      rw (distinct_from-other a p sets n m, find_cost)
        (find_cost-In sets p (ground (arith, h, n)) m)
  | inr (e, n) ↦ ground (arith, h, n)
]

new_policy-accepted :
    (argon2id : Bytes → Bytes → ℕ → ℕ → ℕ → ℕ → Bytes) (current : Params) (superseded : List Params)
    (random salt : Option Bytes) (policy : Policy)
    → new_policy argon2id current superseded random salt ≡ ok policy
    → (policy.current ≡ current)
      × (policy.accepted ≡ current ∷ superseded)
      × (distinct (current ∷ superseded) ≡ none)
unfolding new_policy
new_policy-accepted argon2id current superseded random salt policy h =
    elim (Option-cases (distinct (current ∷ superseded))) [
      | inl n ↦ ground (arith, h, n)
      | inr (e, n) ↦ ground (arith, h, n)
    ]

-- A hash that a policy wrote under any set that it accepts, under the current one or a superseded one, is
-- verified: the result is a match exactly if the derived tags are equal, so for the same password it is,
-- it names the set's version, and it asks for a new hash exactly if the set's cost is not the current one.
-- The tags have the length that was asked for, and the costs and the salt fit the format.
pub verify-hash_with :
    (argon2id : Bytes → Bytes → ℕ → ℕ → ℕ → ℕ → Bytes) (current : Params) (superseded : List Params)
    (random salt0 : Option Bytes) (policy : Policy) (p : Params) (salt secret other encoded : Bytes)
    → ((s t : Bytes) (i m l n : ℕ)
        → All IsByte (argon2id s t i m l n) × (length (argon2id s t i m l n) ≡ n))
    → new_policy argon2id current superseded random salt0 ≡ ok policy
    → In p policy.accepted
    → Fits p
    → IsSalt salt
    → hash_with argon2id p (some salt) secret ≡ ok encoded
    → check_secret other ≡ ok tt
    → verify argon2id policy encoded other
      ≡ ok (record {
        match =
            str_eq
              (argon2id other salt p.iterations p.memory_kib p.parallelism key_bytes)
              (argon2id secret salt p.iterations p.memory_kib p.parallelism key_bytes);
        needs_rehash = not (same_cost p policy.current);
        version = p.version;
      })
unfolding verify hash_with
verify-hash_with argon2id current superseded random salt0 policy p salt secret other encoded a n m f
      s w c =
    let tag = argon2id secret salt p.iterations p.memory_kib p.parallelism key_bytes in
    let (bytes, width) = a secret salt p.iterations p.memory_kib p.parallelism key_bytes in
    let (same, accepted, apart) =
      new_policy-accepted argon2id current superseded random salt0 policy n in
    let found : find_cost policy.accepted (costs p) ≡ some p =
      rw accepted (find_cost-In (current ∷ superseded) p apart (subst (In p) accepted m)) in
    let written : encode_hash p salt tag ≡ encoded = ground (arith, w) in
    let read : decode_hash policy.accepted encoded ≡ ok (p, salt, tag) =
      ap (decode_hash policy.accepted) (sym written)
      ∙ decode_hash-encode_hash policy.accepted p p salt tag f s
          (bytes, ground (arith, width), ground (arith, width)) found in
    rw (c, read, width) refl
