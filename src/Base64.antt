-- ===== src/Base64.antt =====
-- encoding/base64 as the program uses it: the URL alphabet without padding (strict or not) for
-- tokens and cursors, and the standard alphabet with or without padding for configured secrets.
-- Every decoder first drops line feeds and carriage returns, which Go skips in strict mode too.
pub mod RoundTrip
pub mod Digits
pub mod Encoded
use nise_and_go.Common.{
  ℕ, ◌+◌, ◌-◌, ◌*◌, ◌/◌, ◌%◌, ◌≤◌, ◌<◌, ◌≡◌, refl, Bool, true, false, ◌&&◌, ◌||◌, not, List, [],
  ◌∷◌, ◌++◌, Option, none, some, arith, ltb, leb, ◌==◌, if◌then◌else◌,
}
use nise_and_go.Common.Text.{Bytes, codes, between}
use nise_and_go.Common.Maybe.{◌>>=◌, ◌>>◌, none_if}

-- The two characters in which the alphabets differ.
pub record Alphabet : Type 0 where
  pub sixty_two : ℕ
  pub sixty_three : ℕ

abbrev pub url : Alphabet
url = record { sixty_two = b'-'; sixty_three = b'_' }

abbrev pub std : Alphabet
std = record { sixty_two = b'+'; sixty_three = b'/' }

module _ (al : Alphabet) where
  unfoldable pub digit : ℕ → ℕ
  digit v =
      if ltb v 26
      then b'A' + v
      else if ltb v 52
      then b'a' + (v - 26)
      else if ltb v 62
      then b'0' + (v - 52)
      else if v == 62
      then al.sixty_two
      else al.sixty_three

  pub undigit : ℕ → Option ℕ
  undigit c =
      if between b'A' b'Z' c
      then some (c - b'A')
      else if between b'a' b'z' c
      then some (c - b'a' + 26)
      else if between b'0' b'9' c
      then some (c - b'0' + 52)
      else if c == al.sixty_two
      then some 62
      else if c == al.sixty_three
      then some 63
      else none

  -- `EncodeToString` of an encoding without padding.
  pub encode_raw : Bytes → Bytes
  encode_raw [] = []
  encode_raw (a ∷ []) = digit (a / 4) ∷ digit (a % 4 * 16) ∷ []
  encode_raw (a ∷ b ∷ []) = digit (a / 4) ∷ digit (a % 4 * 16 + b / 16) ∷ digit (b % 16 * 4) ∷ []
  encode_raw (a ∷ b ∷ c ∷ r) =
      digit (a / 4)
      ∷ digit (a % 4 * 16 + b / 16)
      ∷ digit (b % 16 * 4 + c / 64)
      ∷ digit (c % 64)
      ∷ encode_raw r

  -- A quantum of two digits, one of three, and one of four.
  pub one_byte : Bool → ℕ → ℕ → Option Bytes
  one_byte strict w x = do
    p ← undigit w
    q ← undigit x
    none_if (strict && not (q % 16 == 0))
    some ((p * 4 + q / 16) ∷ [])

  pub two_bytes : Bool → ℕ → ℕ → ℕ → Option Bytes
  two_bytes strict w x y = do
    p ← undigit w
    q ← undigit x
    r ← undigit y
    none_if (strict && not (r % 4 == 0))
    some ((p * 4 + q / 16) ∷ (q % 16 * 16 + r / 4) ∷ [])

  pub three_bytes : ℕ → ℕ → ℕ → ℕ → Option Bytes
  three_bytes w x y z = do
    p ← undigit w
    q ← undigit x
    r ← undigit y
    s ← undigit z
    some ((p * 4 + q / 16) ∷ (q % 16 * 16 + r / 4) ∷ (r % 4 * 64 + s) ∷ [])

  pub quanta_raw : Bool → Bytes → Option Bytes
  quanta_raw strict [] = some []
  quanta_raw strict (w ∷ []) = none
  quanta_raw strict (w ∷ x ∷ []) = one_byte strict w x
  quanta_raw strict (w ∷ x ∷ y ∷ []) = two_bytes strict w x y
  quanta_raw strict (w ∷ x ∷ y ∷ z ∷ t) = do
    three ← three_bytes w x y z
    rest ← quanta_raw strict t
    some (three ++ rest)

  -- The last quantum may be filled up with `=`, and nothing may follow it.
  pub quanta_padded : Bytes → Option Bytes
  quanta_padded [] = some []
  quanta_padded (w ∷ []) = none
  quanta_padded (w ∷ x ∷ []) = none
  quanta_padded (w ∷ x ∷ y ∷ []) = none
  quanta_padded (w ∷ x ∷ y ∷ z ∷ []) =
      if y == b'=' && z == b'='
      then one_byte false w x
      else if z == b'='
      then two_bytes false w x y
      else three_bytes w x y z
  quanta_padded (w ∷ x ∷ y ∷ z ∷ c ∷ t) = do
    three ← three_bytes w x y z
    rest ← quanta_padded (c ∷ t)
    some (three ++ rest)

pub without_newlines : Bytes → Bytes
without_newlines [] = []
without_newlines (c ∷ s) = if c == 10 || c == 13 then without_newlines s else c ∷ without_newlines s

-- `DecodeString`; an error is `none`.
unfoldable pub decode_raw : Alphabet → Bool → Bytes → Option Bytes
unfolding quanta_raw one_byte two_bytes three_bytes undigit without_newlines
decode_raw al strict s = quanta_raw al strict (without_newlines s)

unfoldable pub decode_padded : Alphabet → Bytes → Option Bytes
unfolding quanta_padded one_byte two_bytes three_bytes undigit without_newlines
decode_padded al s = quanta_padded al (without_newlines s)

unfoldable pub encode : Alphabet → Bytes → Bytes
unfolding encode_raw digit
encode al s = encode_raw al s

encode_runs : encode url (codes "sure.") ≡ codes "c3VyZS4"
unfolding encode
encode_runs = refl

decode_runs : decode_padded std (codes "c3VyZS\n4=") ≡ some (codes "sure.")
unfolding decode_padded
decode_runs = refl

strict_runs : decode_raw url true (codes "c3VyZS5") ≡ none
unfolding decode_raw
strict_runs = refl
