-- ===== src/Password/Examples.antt =====
-- Passwords on concrete input, and the theorems at it.
use nise_and_go.Common.{
  ℕ, zero, suc, ◌*◌, ◌≤◌, ◌≡◌, refl, ap, ◌⊎◌, inl, inr, true, false, not, [], ◌∷◌, some, arith,
  length, replicate,
}
use nise_and_go.Common.Int.{pos, ltb_ℤ}
use nise_and_go.Common.Clock.{Duration}
use nise_and_go.Common.Text.{Bytes, codes, All, str_eq}
use nise_and_go.Common.Result.{ok}
use nise_and_go.Base64.{url, encode}
use nise_and_go.Base64.Encoded.{IsByte}
use nise_and_go.Password.Params.{
  Params, default_params, key_bytes, same_cost, recommend, Recommendation, max_iterations,
}
use nise_and_go.Password.Params.Search.{taken, with_iterations, recommend_lem}
use nise_and_go.Password.Encoding.{encode_hash}
use nise_and_go.Password.Encoding.RoundTrip.{IsSalt}
use nise_and_go.Password.Policy.{Policy, new_policy, hash_with, verify, check_secret}
use nise_and_go.Password.Policy.Verified.{verify-hash_with}

abbrev all_zero : Bytes → Bytes → ℕ → ℕ → ℕ → ℕ → Bytes
all_zero secret salt i m l n = replicate n 7

abbrev old_params : Params
old_params = record { version = pos 7; memory_kib = 19456; iterations = 2; parallelism = 1 }

abbrev example_salt : Bytes
example_salt = codes "0123456789abcdef"

abbrev example_policy : Policy
example_policy = record {
  current = default_params;
  accepted = default_params ∷ old_params ∷ [];
  dummy_hash = encode_hash default_params example_salt (replicate key_bytes 7);
  dummy_value = encode url (codes "random");
}

example_policy_made :
    new_policy all_zero default_params (old_params ∷ []) (some (codes "random")) (some example_salt)
    ≡ ok example_policy
unfolding new_policy
example_policy_made = refl

example_written :
    hash_with all_zero old_params (some example_salt) (codes "secret")
    ≡ ok (encode_hash old_params example_salt (replicate key_bytes 7))
unfolding hash_with
example_written = refl

written_text :
    encode_hash old_params example_salt (1 ∷ 2 ∷ 3 ∷ [])
    ≡ codes "$argon2id$v=19$m=19456,t=2,p=1$MDEyMzQ1Njc4OWFiY2RlZg$AQID"
unfolding encode_hash
written_text = refl

zero_bytes :
    (s t : Bytes) (i m l n : ℕ)
    → All IsByte (all_zero s t i m l n) × (length (all_zero s t i m l n) ≡ n)
zero_bytes s t i m l zero = (tt, refl)
zero_bytes s t i m l (suc n) = let (b, e) = zero_bytes s t i m l n in ((omega arith, b), ap suc e)

example_check : check_secret (codes "other") ≡ ok tt
unfolding check_secret
example_check = refl

example_IsSalt : IsSalt example_salt
example_IsSalt = ground arith

verify-hash_with_example :
    verify all_zero example_policy
      (encode_hash old_params example_salt (replicate key_bytes 7))
      (codes "other")
    ≡ ok (record {
      match =
          str_eq
            (all_zero (codes "other") example_salt 2 19456 1 key_bytes)
            (all_zero (codes "secret") example_salt 2 19456 1 key_bytes);
      needs_rehash = not (same_cost old_params default_params);
      version = pos 7;
    })
verify-hash_with_example =
    verify-hash_with all_zero default_params (old_params ∷ []) (some (codes "random"))
      (some example_salt) example_policy old_params example_salt (codes "secret") (codes "other")
      (encode_hash old_params example_salt (replicate key_bytes 7)) zero_bytes example_policy_made
      (inr (inl refl)) (omega arith, omega arith, omega arith, omega arith) example_IsSalt
      example_written example_check

-- A machine on which an iteration takes a fifth of a second.
abbrev slow_machine : Params → ℕ → Duration
slow_machine p i = pos (p.iterations * 200_000_000)

abbrev two_passes : Recommendation
two_passes = record {
  params = with_iterations 2 47104 1;
  measured = pos 400_000_000;
  target = pos 500_000_000;
  at_ceiling = false;
  measurements =
      record { params = with_iterations 1 47104 1; duration = pos 200_000_000; samples = 3 }
      ∷ record { params = with_iterations 2 47104 1; duration = pos 400_000_000; samples = 3 }
      ∷ record { params = with_iterations 3 47104 1; duration = pos 600_000_000; samples = 3 }
      ∷ [];
}

two_passes_found : recommend slow_machine 47104 1 (pos 500_000_000) 3 ≡ ok two_passes
unfolding recommend
two_passes_found = refl

recommend_lem_example :
    (two_passes.params ≡ with_iterations 2 47104 1)
    × (two_passes.measured ≡ taken slow_machine two_passes.params 3)
    × (ltb_ℤ (pos 500_000_000) two_passes.measured ≡ false)
    × (((two_passes.at_ceiling ≡ true) × (two_passes.params.iterations ≡ max_iterations))
        ⊎ (ltb_ℤ (pos 500_000_000) (taken slow_machine (with_iterations 3 47104 1) 3) ≡ true))
    × (length two_passes.measurements ≤ max_iterations)
recommend_lem_example =
    recommend_lem slow_machine 47104 1 (pos 500_000_000) 3 two_passes two_passes_found
