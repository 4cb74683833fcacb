-- ===== src/Totp/Code.antt =====
-- modules/totp/totp.go. HMAC-SHA1 is the parameter `hmac`.
use nise_and_go.Common.{
  ℕ, zero, suc, ◌+◌, ◌-◌, ◌*◌, ◌/◌, ◌%◌, ◌^◌, Bool, ◌||◌, not, [], ◌∷◌, Option, none, some, ltb,
  ◌==◌, if◌then◌else◌, length, get_or,
}
use nise_and_go.Common.Int.{ℤ, pos, negsuc, ◌+ℤ◌, ◌-ℤ◌}
use nise_and_go.Common.Text.{Bytes, str_eq, between, all_of}
use nise_and_go.Common.Space.{trim_space}
use nise_and_go.Pagination.Frame.{uint64_bytes}

-- The period in seconds.
abbrev pub period : ℕ
period = 30

abbrev pub digits : ℕ
digits = 6

abbrev pub secret_bytes : ℕ
secret_bytes = 20

abbrev pub max_skew_steps : ℕ
max_skew_steps = 2

-- The key material; none of it is the zero secret.
abbrev pub Secret : Type 0
Secret = Bytes

-- `SecretFromBytes`
unfoldable pub secret_from_bytes : Bytes → Option Secret
secret_from_bytes key = if length key == secret_bytes then some key else none

-- `s.IsZero()`
abbrev pub secret_is_zero : Secret → Bool
secret_is_zero key = length key == 0

-- `Step`, of the seconds of a moment since the Unix epoch. Division truncates toward zero.
unfoldable pub step : ℤ → ℤ
step (pos n) = pos (n / period)
step (negsuc n) = pos 0 -ℤ pos (suc n / period)

-- `StartOfStep`, in seconds since the Unix epoch.
unfoldable pub start_of_step : ℕ → ℕ
start_of_step s = s * period

-- `pow10`
unfoldable pub pow10 : ℕ → ℕ
pow10 zero = 1
pow10 (suc n) = pow10 n * 10 % 2 ^ 32

-- `fmt.Sprintf("%0*d", width, n)` of a number of at most `width` digits.
unfoldable pub padded : ℕ → ℕ → Bytes
padded zero n = []
padded (suc width) n = (n / 10 ^ width % 10 + b'0') ∷ padded width n

-- `binary.BigEndian.Uint32(sum[offset : offset+4])`
abbrev pub uint32_at : Bytes → ℕ → ℕ
uint32_at sum offset =
    get_or sum offset 0 * 2 ^ 24
    + get_or sum (offset + 1) 0 * 2 ^ 16
    + get_or sum (offset + 2) 0 * 2 ^ 8
    + get_or sum (offset + 3) 0

-- The truncation of RFC 4226, of the tag. Clearing bits by a mask is a remainder.
unfoldable pub truncated : Bytes → ℕ
truncated sum = let offset = get_or sum (length sum - 1) 0 % 16 in uint32_at sum offset % 2 ^ 31

module _ (hmac : Bytes → Bytes → Bytes) where
  -- `s.Code(step)`
  unfoldable pub code_at : Secret → ℤ → Option Bytes
  unfolding truncated pow10 padded
  code_at key (negsuc n) = none
  code_at key (pos n) =
      if secret_is_zero key
      then none
      else some (padded digits (truncated (hmac key (uint64_bytes n)) % pow10 digits))

-- `strings.ReplaceAll(s, " ", "")`
unfoldable pub without_spaces : Bytes → Bytes
without_spaces [] = []
without_spaces (c ∷ s) = let rest = without_spaces s in if c == b' ' then rest else c ∷ rest

unfoldable pub normalize_code : Bytes → Option Bytes
unfolding trim_space without_spaces all_of
normalize_code submitted =
    let cleaned = without_spaces (trim_space submitted) in
    if not (length cleaned == digits)
    then none
    else if all_of (between b'0' b'9') cleaned
    then some cleaned
    else none

module _ (hmac : Bytes → Bytes → Bytes) where
  -- The loop of `Verify` over `count` steps from `at` on; `found` is the step that matched last.
  unfoldable pub verify_loop : Secret → Bytes → ℕ → ℤ → Option ℤ → Option (Option ℤ)
  unfolding code_at str_eq ◌+ℤ◌
  verify_loop key cleaned zero at found = some found
  verify_loop key cleaned (suc count) at found = elim (code_at hmac key at) [
    | none ↦ none
    | some candidate ↦
        verify_loop key cleaned count (at +ℤ pos 1)
          (if str_eq candidate cleaned then some at else found)
  ]

  -- `s.Verify(submitted, at, skewSteps)`, of the seconds of the moment.
  unfoldable pub verify : Secret → Bytes → ℤ → ℤ → Option ℤ
  unfolding normalize_code step verify_loop ◌-ℤ◌
  verify key submitted at (negsuc n) = none
  verify key submitted at (pos skew) =
      if secret_is_zero key || ltb max_skew_steps skew
      then none
      else elim (normalize_code submitted) [
        | none ↦ none
        | some cleaned ↦ elim (verify_loop key cleaned (2 * skew + 1) (step at -ℤ pos skew) none) [
          | none ↦ none
          | some found ↦ found
        ]
      ]
