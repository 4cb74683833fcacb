-- ===== src/Common/Affix/Decimal.antt =====
-- Printed numbers: their digits, and reading them back as `strconv.ParseUint` and `strconv.Atoi` do.
use nise_and_go.Common.{
  ℕ, zero, suc, ◌+◌, ◌-◌, ◌*◌, ◌/◌, ◌%◌, ◌^◌, ◌<◌, ◌≡◌, refl, inl, inr, Bool, true, false, ◌||◌,
  not, [], ◌∷◌, ◌++◌, Option, none, some, arith, ltb, leb, ◌==◌, if◌then◌else◌, Bool-cases,
}
use nise_and_go.Common.Int.{ℤ, pos, negsuc}
use nise_and_go.Common.Text.{is_empty-snoc, Bytes, is_empty, between, all_of}
use nise_and_go.Common.Affix.{decimal, decimal_loop}

abbrev pub is_digit : ℕ → Bool
is_digit c = between b'0' b'9' c

unfoldable pub digits_value : ℕ → Bytes → ℕ
digits_value v [] = v
digits_value v (c ∷ s) = digits_value (v * 10 + (c - b'0')) s

-- `strconv.ParseUint(s, 10, bits)`; an error is `none`.
unfoldable pub parse_uint : ℕ → Bytes → Option ℕ
unfolding digits_value all_of
parse_uint bits s =
    if is_empty s || not (all_of is_digit s)
    then none
    else if ltb (digits_value 0 s) (2 ^ bits)
    then some (digits_value 0 s)
    else none

-- The number of `Atoi` after its sign.
unfoldable pub signed_value : Bool → Bytes → Option ℤ
unfolding digits_value all_of
signed_value negative s =
    if is_empty s || not (all_of is_digit s)
    then none
    else let v = digits_value 0 s in
      if not negative
      then if ltb v (2 ^ 63) then some (pos v) else none
      else if v == 0
      then some (pos 0)
      else if leb v (2 ^ 63)
      then some (negsuc (v - 1))
      else none

-- `strconv.Atoi(s)` where an int has 64 bits.
unfoldable pub atoi : Bytes → Option ℤ
unfolding signed_value
atoi [] = none
atoi (c ∷ s) =
    if c == b'-'
    then signed_value true s
    else if c == b'+'
    then signed_value false s
    else signed_value false (c ∷ s)

digits_value-snoc :
    (s : Bytes) (v c : ℕ) → digits_value v (s ++ c ∷ []) ≡ digits_value v s * 10 + (c - b'0')
unfolding digits_value
digits_value-snoc [] v c = refl
digits_value-snoc (d ∷ s) v c = digits_value-snoc s (v * 10 + (d - b'0')) c

all_of-snoc :
    (s : Bytes) (c : ℕ)
    → all_of is_digit s ≡ true
    → is_digit c ≡ true
    → all_of is_digit (s ++ c ∷ []) ≡ true
unfolding all_of
all_of-snoc [] c h k = ground (arith, k)
all_of-snoc (d ∷ s) c h k = ground (arith, h, all_of-snoc s c, k)

decimal_loop-value : (fuel n : ℕ) → n < fuel → digits_value 0 (decimal_loop fuel n) ≡ n
unfolding decimal_loop digits_value
decimal_loop-value zero n h = absurd (omega arith)
decimal_loop-value (suc fuel) n h = elim (Bool-cases (ltb n 10)) [
  | inl e ↦ rw (e, decimal_loop) (ground arith)
  | inr e ↦
      rw (e, decimal_loop)
        (ground (
          arith,
          digits_value-snoc (decimal_loop fuel (n / 10)) 0 (b'0' + n % 10),
          decimal_loop-value fuel (n / 10),
          e,
        ))
]

decimal_loop-digits : (fuel n : ℕ) → n < fuel → all_of is_digit (decimal_loop fuel n) ≡ true
unfolding decimal_loop all_of
decimal_loop-digits zero n h = absurd (omega arith)
decimal_loop-digits (suc fuel) n h = elim (Bool-cases (ltb n 10)) [
  | inl e ↦ rw (e, decimal_loop) (ground (arith, e))
  | inr e ↦
      rw (e, decimal_loop)
        (ground (
          arith,
          all_of-snoc (decimal_loop fuel (n / 10)) (b'0' + n % 10),
          decimal_loop-digits fuel (n / 10),
          e,
        ))
]

decimal_loop-nonempty : (fuel n : ℕ) → n < fuel → is_empty (decimal_loop fuel n) ≡ false
unfolding decimal_loop
decimal_loop-nonempty zero n h = absurd (omega arith)
decimal_loop-nonempty (suc fuel) n h = elim (Bool-cases (ltb n 10)) [
  | inl e ↦ rw (e, decimal_loop) refl
  | inr e ↦ rw (e, decimal_loop) (is_empty-snoc (decimal_loop fuel (n / 10)) (b'0' + n % 10))
]

pub decimal-digits : (n : ℕ) → all_of is_digit (decimal n) ≡ true
unfolding decimal
decimal-digits n = decimal_loop-digits (n + 1) n (omega arith)

pub parse_uint-decimal : (bits n : ℕ) → n < 2 ^ bits → parse_uint bits (decimal n) ≡ some n
unfolding parse_uint decimal
parse_uint-decimal bits n h = ground (
  arith,
  decimal_loop-digits (n + 1) n,
  decimal_loop-value (n + 1) n,
  decimal_loop-nonempty (n + 1) n,
  h,
)
