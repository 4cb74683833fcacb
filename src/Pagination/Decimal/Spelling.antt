-- ===== src/Pagination/Decimal/Spelling.antt =====
-- The numbers that `decimalValue` reads, each in one spelling.
use nise_and_go.Common.{
  ℕ, ◌+◌, ◌-◌, ◌*◌, ◌≤◌, ◌<◌, ◌≡◌, ◌≢◌, refl, sym, ◌∙◌, ◌⊎◌, inl, inr, true, false, [], ◌∷◌, some,
  arith, ltb, length, Bool-cases,
}
use nise_and_go.Common.Int.{max_int64}
use nise_and_go.Common.Text.{Bytes, is_empty-ne, ne-is_empty, all_of}
use nise_and_go.Pagination.Decimal.{is_digit, leading_zero, value_from, atoi, decimal_value}

-- Decimal digits, at least one, with no zero in front but in "0" itself.
pub record Spells (raw : Bytes) (v : ℕ) : Type 0 where
  pub filled : raw ≢ []
  pub digits : all_of is_digit raw ≡ true
  pub canonical : (length raw ≤ 1) ⊎ (leading_zero raw ≡ false)
  pub value : v ≡ value_from 0 raw

pub decimal_value_sound :
    (raw : Bytes) (m : ℕ) {v : ℕ}
    → decimal_value raw m ≡ some v
    → Spells raw v × (length raw ≤ m) × (v ≤ max_int64)
unfolding decimal_value atoi
decimal_value_sound raw m {v} h = (
  record {
    filled = is_empty-ne raw (ground arith);
    digits = ground arith;
    canonical = ground arith;
    value = ground arith;
  },
  ground arith,
  ground arith,
)

pub decimal_value_complete :
    (raw : Bytes) (m v : ℕ)
    → Spells raw v
    → length raw ≤ m
    → v ≤ max_int64
    → decimal_value raw m ≡ some v
unfolding decimal_value atoi
decimal_value_complete raw m v s l k =
    ground (arith, ne-is_empty raw s.filled, s.digits, s.canonical, s.value)

-- A longer or equally long text behind a greater number spells a greater number.
value_from-lt :
    (n m : ℕ) (s t : Bytes)
    → all_of is_digit s ≡ true
    → length s ≤ length t
    → n < m
    → value_from n s < value_from m t
unfolding value_from all_of
value_from-lt n m [] [] a l h = h
value_from-lt n m [] (d ∷ t) a l h =
    value_from-lt n (m * 10 + (d - b'0')) [] t a (omega arith) (omega arith)
value_from-lt n m (c ∷ s) [] a l h = absurd (omega arith)
value_from-lt n m (c ∷ s) (d ∷ t) a l h =
    value_from-lt (n * 10 + (c - b'0')) (m * 10 + (d - b'0')) s t (ground arith) (omega arith)
      (ground arith)

same_length :
    (n m : ℕ) (s t : Bytes)
    → all_of is_digit s ≡ true
    → all_of is_digit t ≡ true
    → length s ≡ length t
    → value_from n s ≡ value_from m t
    → (n ≡ m) × (s ≡ t)
unfolding value_from all_of
same_length n m [] [] a b l h = (h, refl)
same_length n m [] (d ∷ t) a b l h = absurd (omega arith)
same_length n m (c ∷ s) [] a b l h = absurd (omega arith)
same_length n m (c ∷ s) (d ∷ t) a b l h =
    let (e, rest) =
      same_length (n * 10 + (c - b'0')) (m * 10 + (d - b'0')) s t (ground arith) (ground arith)
        (omega arith) h in
    let e₁ : n ≡ m = ground arith in let e₂ : c ≡ d = ground arith in (e₁, cc (e₂, rest))

shorter :
    (s t : Bytes)
    → all_of is_digit s ≡ true
    → all_of is_digit t ≡ true
    → leading_zero t ≡ false
    → length s < length t
    → value_from 0 s < value_from 0 t
unfolding value_from all_of
shorter s [] a b z l = absurd (omega arith)
shorter s (d ∷ t) a b z l = value_from-lt 0 (0 * 10 + (d - b'0')) s t a (omega arith) (ground arith)

-- A number has one spelling.
pub Spells-unique : (s t : Bytes) (v : ℕ) → Spells s v → Spells t v → s ≡ t
Spells-unique s t v p q = elim (Bool-cases (ltb (length s) (length t))) [
  | inl e ↦ absurd (longer s t p q (ground arith))
  | inr e ↦ elim (Bool-cases (ltb (length t) (length s))) [
    | inl f ↦ absurd (longer t s q p (ground arith))
    | inr f ↦ (same_length 0 0 s t p.digits q.digits (ground arith) (sym p.value ∙ q.value)).1
  ]
]
  where
    longer : (a b : Bytes) → Spells a v → Spells b v → ¬ (length a < length b)
    longer a b x y l = elim y.canonical [
      | inl one ↦ x.filled (empty a (omega arith))
      | inr z ↦ omega (arith, shorter a b x.digits y.digits z l, x.value, y.value)
    ]
      where
        empty : (c : Bytes) → length c ≡ 0 → c ≡ []
        empty [] e = refl
        empty (d ∷ c) e = absurd (omega arith)
