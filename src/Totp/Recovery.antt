-- ===== src/Totp/Recovery.antt =====
-- modules/totp/recovery.go. The random source and SHA-256 are arguments.
use nise_and_go.Common.{
  ℕ, ◌+◌, ◌-◌, ◌%◌, Bool, false, ◌&&◌, ◌||◌, not, [], ◌∷◌, Option, none, some, ltb, ◌==◌,
  if◌then◌else◌, length, get_or, map,
}
use nise_and_go.Common.Text.{Bytes, codes, between, all_of, is_empty}
use nise_and_go.Common.Space.{trim_space}

abbrev pub recovery_code_count : ℕ
recovery_code_count = 10

abbrev pub recovery_code_characters : ℕ
recovery_code_characters = 10

abbrev pub recovery_code_group : ℕ
recovery_code_group = 5

abbrev pub recovery_alphabet : Bytes
recovery_alphabet = codes "0123456789ABCDEFGHJKMNPQRSTVWXYZ"

pub record RecoveryCode : Type 0 where
  pub value : Bytes

-- The loop that writes the characters, with a hyphen before every group but the first; `i` is the
-- position.
unfoldable pub grouped : ℕ → Bytes → Bytes
grouped i [] = []
grouped i (c ∷ s) =
    let rest = grouped (i + 1) s in
    if ltb 0 i && i % recovery_code_group == 0 then b'-' ∷ c ∷ rest else c ∷ rest

-- `recoveryAlphabet[b&0x1f]`
abbrev pub symbol : ℕ → ℕ
symbol b = get_or recovery_alphabet (b % 32) 0

-- `newRecoveryCode`, of the bytes that the random source gave; `none` when it failed.
unfoldable pub new_recovery_code : Option Bytes → Option RecoveryCode
unfolding grouped
new_recovery_code none = none
new_recovery_code (some raw) = some (record { value = grouped 0 (map symbol raw) })

-- What the parser reads a character as. (A byte of a character beyond ASCII is refused as it is, and
-- so is the character.)
abbrev pub read_as : ℕ → ℕ
read_as c =
    if c == b'i' || c == b'I' || c == b'l' || c == b'L'
    then b'1'
    else if c == b'o' || c == b'O'
    then b'0'
    else if between b'a' b'z' c
    then c - 32
    else c

-- The characters that are kept, as they are read.
unfoldable pub cleaned : Bytes → Bytes
cleaned [] = []
cleaned (c ∷ s) = let rest = cleaned s in if c == b'-' || c == b' ' then rest else read_as c ∷ rest

unfoldable pub member : ℕ → Bytes → Bool
member c [] = false
member c (d ∷ s) = c == d || member c s

unfoldable pub parse_recovery_code : Bytes → Option RecoveryCode
unfolding trim_space cleaned member all_of grouped
parse_recovery_code submitted =
    let text = cleaned (trim_space submitted) in
    if not (length text == recovery_code_characters)
    then none
    else if not (all_of (λ c. member c recovery_alphabet) text)
    then none
    else some (record { value = grouped 0 text })

unfoldable pub without_hyphens : Bytes → Bytes
without_hyphens [] = []
without_hyphens (c ∷ s) = let rest = without_hyphens s in if c == b'-' then rest else c ∷ rest

-- `c.Digest()`; nothing for the zero code.
unfoldable pub recovery_digest : (Bytes → Bytes) → RecoveryCode → Bytes
unfolding without_hyphens
recovery_digest sha256 c = if is_empty c.value then [] else sha256 (without_hyphens c.value)
