-- ===== src/Pagination/Decimal.antt =====
-- runtime/pagination/request.go: `decimalValue`; runtime/pagination/report.go: `digitsIn`.
pub mod Spelling
pub mod Digits
use nise_and_go.Common.{
  ℕ, zero, suc, ◌+◌, ◌-◌, ◌*◌, ◌/◌, ◌%◌, ◌^◌, ◌≤◌, ◌<◌, ◌≡◌, ◌≢◌, ◌↔◌, refl, sym, ap, ◌∙◌, Bool,
  true, false, ◌&&◌, ◌||◌, not, List, [], ◌∷◌, ◌++◌, Option, none, some, arith, ltb, leb, ◌==◌,
  if◌then◌else◌, length,
}
use nise_and_go.Common.Int.{max_int64}
use nise_and_go.Common.Text.{Bytes, codes, is_empty, between, all_of}

abbrev pub is_digit : ℕ → Bool
is_digit = between b'0' b'9'

abbrev pub leading_zero : Bytes → Bool
leading_zero [] = false
leading_zero (c ∷ s) = c == b'0'

-- The number that digits spell behind `n`.
unfoldable pub value_from : ℕ → Bytes → ℕ
value_from n [] = n
value_from n (c ∷ s) = value_from (n * 10 + (c - b'0')) s

-- `strconv.Atoi` of a text of digits: an error where the number fits no int.
unfoldable pub atoi : Bytes → Option ℕ
unfolding value_from
atoi s = if leb (value_from 0 s) max_int64 then some (value_from 0 s) else none

unfoldable pub decimal_value : Bytes → ℕ → Option ℕ
unfolding all_of
decimal_value raw max_digits =
    if is_empty raw || ltb max_digits (length raw) || (ltb 1 (length raw) && leading_zero raw)
    then none
    else if not (all_of is_digit raw)
    then none
    else atoi raw

-- The loop of `digitsIn`: `fuel` bounds the rounds.
digits_loop : ℕ → ℕ → ℕ → ℕ
digits_loop zero value digits = digits
digits_loop (suc fuel) value digits =
    let rest = digits_loop fuel (value / 10) (digits + 1) in if leb 10 value then rest else digits

-- A round divides by ten, so a value below 10 ^ (fuel + 1) ends the loop by its test.
unfoldable pub digits_in : ℕ → ℕ
unfolding digits_loop
digits_in value = digits_loop value value 1

decimal_runs : decimal_value (codes "200") 4 ≡ some 200
unfolding decimal_value atoi
decimal_runs = refl

decimal_zero_first : decimal_value (codes "010") 4 ≡ none
unfolding decimal_value atoi
decimal_zero_first = refl

digits_runs : digits_in 100000 ≡ 6
unfolding digits_in
digits_runs = refl
