-- ===== src/Base64/Digits.antt =====
-- A test that every digit passes is passed by every encoding.
use nise_and_go.Common.{ℕ, ◌+◌, ◌*◌, ◌/◌, ◌%◌, ◌≡◌, refl, Bool, true, [], ◌∷◌, arith}
use nise_and_go.Common.Text.{Bytes, all_of}
use nise_and_go.Base64.{Alphabet, digit, encode_raw, encode}

module _ (al : Alphabet) (p : ℕ → Bool) (digits : (v : ℕ) → p (digit al v) ≡ true) where
  all_of-encode_raw : (s : Bytes) → all_of p (encode_raw al s) ≡ true
  unfolding encode_raw all_of
  all_of-encode_raw [] = refl
  all_of-encode_raw (a ∷ []) = ground (arith, digits (a / 4), digits (a % 4 * 16))
  all_of-encode_raw (a ∷ b ∷ []) =
      ground (arith, digits (a / 4), digits (a % 4 * 16 + b / 16), digits (b % 16 * 4))
  all_of-encode_raw (a ∷ b ∷ c ∷ r) = ground (
    arith,
    digits (a / 4),
    digits (a % 4 * 16 + b / 16),
    digits (b % 16 * 4 + c / 64),
    digits (c % 64),
    all_of-encode_raw r,
  )

  pub all_of-encode : (s : Bytes) → all_of p (encode al s) ≡ true
  unfolding encode
  all_of-encode s = all_of-encode_raw s
