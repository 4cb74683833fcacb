-- ===== src/Pagination/Decimal/Digits.antt =====
-- The digit bound of `digitsIn` refuses no number in range.
use nise_and_go.Common.{
  ℕ, zero, suc, ◌+◌, ◌-◌, ◌*◌, ◌/◌, ◌≤◌, ◌<◌, ◌≡◌, refl, ◌⊎◌, inl, inr, true, false, [], ◌∷◌, arith,
  ltb, leb, length, Bool-cases,
}
use nise_and_go.Common.Text.{Bytes, all_of}
use nise_and_go.Pagination.Decimal.{is_digit, leading_zero, value_from, digits_loop, digits_in}
use nise_and_go.Pagination.Decimal.Spelling.{Spells}

-- `n` with `k` zeros behind it.
abbrev scaled : ℕ → ℕ → ℕ
scaled zero n = n
scaled (suc k) n = scaled k (10 * n)

scaled_mono : (k n m : ℕ) → n ≤ m → scaled k n ≤ scaled k m
scaled_mono zero n m h = h
scaled_mono (suc k) n m h = scaled_mono k (10 * n) (10 * m) (omega arith)

scaled_ten : (k n : ℕ) → scaled (suc k) n ≡ 10 * scaled k n
scaled_ten zero n = refl
scaled_ten (suc k) n = scaled_ten k (10 * n)

scaled_longer : (j k n : ℕ) → 1 ≤ n → j ≤ k → scaled j n ≤ scaled k n
scaled_longer zero zero n p h = omega arith
scaled_longer zero (suc k) n p h =
    let ih = scaled_longer zero k (10 * n) (omega arith) (omega arith) in omega (arith, ih)
scaled_longer (suc j) zero n p h = absurd (omega arith)
scaled_longer (suc j) (suc k) n p h = scaled_longer j k (10 * n) (omega arith) (omega arith)

scaled-le-value_from : (n : ℕ) (s : Bytes) → scaled (length s) n ≤ value_from n s
unfolding value_from
scaled-le-value_from n [] = omega arith
scaled-le-value_from n (c ∷ s) = omega (
  arith,
  scaled-le-value_from (n * 10 + (c - b'0')) s,
  scaled_mono (length s) (10 * n) (n * 10 + (c - b'0')) (omega arith),
)

-- Each round counts one digit: the count grows by as many as the number has beyond the first.
loop_count :
    (fuel v d : ℕ) → v ≤ fuel → (k : ℕ) × (digits_loop fuel v d ≡ d + k) × (v < scaled (suc k) 1)
unfolding digits_loop
loop_count zero v d h = (0, omega arith, omega arith)
loop_count (suc fuel) v d h = elim (Bool-cases (leb 10 v)) [
  | inl e ↦
      let (k, counted, bound) = loop_count fuel (v / 10) (d + 1) (ground arith) in
      (suc k, rw e (omega (arith, counted)), omega (arith, scaled_ten (suc k) 1, bound))
  | inr e ↦ (0, rw e (omega arith), ground arith)
]

value-lt-digits_in : (v : ℕ) → (k : ℕ) × (digits_in v ≡ 1 + k) × (v < scaled (suc k) 1)
unfolding digits_in
value-lt-digits_in v = loop_count v v 1 (omega arith)

longer_than_digits :
    (s : Bytes) (c k high : ℕ)
    → b'0' < c
    → high < scaled (suc k) 1
    → suc k ≤ length s
    → high < value_from 0 (c ∷ s)
unfolding value_from
longer_than_digits s c k high p h l = omega (
  arith,
  scaled-le-value_from (0 * 10 + (c - b'0')) s,
  scaled_longer (suc k) (length s) 1 (omega arith) l,
  scaled_mono (length s) 1 (0 * 10 + (c - b'0')) (omega arith),
)

-- The spelling of a number up to `high` has at most `digitsIn(high)` digits.
pub length-le-digits_in :
    (raw : Bytes) (v high : ℕ) → Spells raw v → v ≤ high → length raw ≤ digits_in high
length-le-digits_in [] v high s h = absurd (s.filled refl)
length-le-digits_in (c ∷ []) v high s h =
    let (k, e, _) = value-lt-digits_in high in omega (arith, e)
length-le-digits_in (c ∷ d ∷ t) v high s h =
    let (k, e, bound) = value-lt-digits_in high in
    elim (Bool-cases (ltb (suc k) (length (c ∷ d ∷ t)))) [
      | inr f ↦ ground (arith, e)
      | inl f ↦ absurd (
          omega (
            arith,
            longer_than_digits (d ∷ t) c k high (first s.canonical s.digits) bound (ground arith),
            s.value,
          ))
    ]
  where
    first :
        (length (c ∷ d ∷ t) ≤ 1) ⊎ (leading_zero (c ∷ d ∷ t) ≡ false)
        → all_of is_digit (c ∷ d ∷ t) ≡ true
        → b'0' < c
    first (inl l) a = absurd (omega arith)
    first (inr z) a = unfold all_of in ground arith
