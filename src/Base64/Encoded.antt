-- ===== src/Base64/Encoded.antt =====
-- Decoding what was encoded, for an alphabet whose digits are read back and are no line breaks.
use nise_and_go.Common.{ℕ, ◌+◌, ◌*◌, ◌/◌, ◌%◌, ◌<◌, ◌≡◌, refl, Bool, [], ◌∷◌, some, arith}
use nise_and_go.Common.Text.{Bytes, All}
use nise_and_go.Base64.{
  Alphabet, std, digit, undigit, encode_raw, one_byte, two_bytes, three_bytes, quanta_raw,
  without_newlines, encode, decode_raw,
}

abbrev pub IsByte : ℕ → Type 0
IsByte b = b < 256

module _ (al : Alphabet) (inverse : (v : ℕ) → v < 64 → undigit al (digit al v) ≡ some v)
    (graphic : (v : ℕ) → 32 < digit al v) where
  one_byte-encode :
      (strict : Bool) (a : ℕ)
      → IsByte a
      → one_byte al strict (digit al (a / 4)) (digit al (a % 4 * 16)) ≡ some (a ∷ [])
  unfolding one_byte
  one_byte-encode strict a h = ground (arith, inverse (a / 4), inverse (a % 4 * 16))

  two_bytes-encode :
      (strict : Bool) (a b : ℕ)
      → IsByte a
      → IsByte b
      → two_bytes al strict
          (digit al (a / 4))
          (digit al (a % 4 * 16 + b / 16))
          (digit al (b % 16 * 4))
        ≡ some (a ∷ b ∷ [])
  unfolding two_bytes
  two_bytes-encode strict a b h k =
      ground (arith, inverse (a / 4), inverse (a % 4 * 16 + b / 16), inverse (b % 16 * 4))

  three_bytes-encode :
      (a b c : ℕ)
      → IsByte a
      → IsByte b
      → IsByte c
      → three_bytes al
          (digit al (a / 4))
          (digit al (a % 4 * 16 + b / 16))
          (digit al (b % 16 * 4 + c / 64))
          (digit al (c % 64))
        ≡ some (a ∷ b ∷ c ∷ [])
  unfolding three_bytes
  three_bytes-encode a b c h k l = ground (
    arith,
    inverse (a / 4),
    inverse (a % 4 * 16 + b / 16),
    inverse (b % 16 * 4 + c / 64),
    inverse (c % 64),
  )

  quanta_raw-encode :
      (strict : Bool) (s : Bytes) → All IsByte s → quanta_raw al strict (encode_raw al s) ≡ some s
  unfolding quanta_raw encode_raw
  quanta_raw-encode strict [] h = refl
  quanta_raw-encode strict (a ∷ []) h = one_byte-encode strict a h.0
  quanta_raw-encode strict (a ∷ b ∷ []) h = two_bytes-encode strict a b h.0 h.1.0
  quanta_raw-encode strict (a ∷ b ∷ c ∷ r) h =
      rw (three_bytes-encode a b c h.0 h.1.0 h.1.1.0, quanta_raw-encode strict r h.1.1.1) refl

  digit_kept :
      (v : ℕ) (s : Bytes) → without_newlines (digit al v ∷ s) ≡ digit al v ∷ without_newlines s
  unfolding without_newlines
  digit_kept v s = ground (arith, graphic v)

  encode_raw_kept : (s : Bytes) → without_newlines (encode_raw al s) ≡ encode_raw al s
  unfolding without_newlines encode_raw
  encode_raw_kept [] = refl
  encode_raw_kept (a ∷ []) = rw (digit_kept, digit_kept) refl
  encode_raw_kept (a ∷ b ∷ []) = rw (digit_kept, digit_kept, digit_kept) refl
  encode_raw_kept (a ∷ b ∷ c ∷ r) =
      rw (digit_kept, digit_kept, digit_kept, digit_kept, encode_raw_kept r) refl

  -- Decoding an encoded text gives the bytes back, strictly or not.
  pub decode-encode :
      (strict : Bool) (s : Bytes) → All IsByte s → decode_raw al strict (encode al s) ≡ some s
  unfolding decode_raw encode
  decode-encode strict s h = rw (encode_raw_kept s) (quanta_raw-encode strict s h)

std_inverse : (v : ℕ) → v < 64 → undigit std (digit std v) ≡ some v
unfolding digit undigit
std_inverse v h = ground arith

std_graphic : (v : ℕ) → 32 < digit std v
unfolding digit
std_graphic v = ground arith

pub decode-encode-std :
    (strict : Bool) (s : Bytes) → All IsByte s → decode_raw std strict (encode std s) ≡ some s
decode-encode-std = decode-encode std std_inverse std_graphic
