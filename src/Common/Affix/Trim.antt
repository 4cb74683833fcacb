-- ===== src/Common/Affix/Trim.antt =====
-- Trimming a byte twice is trimming it once.
use nise_and_go.Common.{if-intro, ◌≢◌, ℕ, ◌≡◌, refl, ap, ◌∙◌, false, [], ◌∷◌, ◌++◌, arith, ◌==◌}
use nise_and_go.Common.Text.{Bytes}
use nise_and_go.Common.Affix.{trim_left, trim_right, trim_byte}

trim_right-snoc : (q : ℕ) (s : Bytes) → trim_right q (s ++ q ∷ []) ≡ trim_right q s
unfolding trim_right
trim_right-snoc q [] = ground arith
trim_right-snoc q (c ∷ s) = rw (trim_right-snoc q s) refl

trim_right_idem : (q : ℕ) (s : Bytes) → trim_right q (trim_right q s) ≡ trim_right q s
unfolding trim_right
trim_right_idem q [] = refl
trim_right_idem q (c ∷ s) = ground (arith, trim_right_idem q s)

-- A text that a cut has left starts with another byte, and keeps it.
trim_left_id : (q : ℕ) (s : Bytes) → trim_left q (trim_byte q s) ≡ trim_byte q s
unfolding trim_left trim_right
trim_left_id q [] = refl
trim_left_id q (c ∷ s) =
    if-intro (λ (x : Bytes). trim_left q (trim_right q x) ≡ trim_right q x) (c == q) (trim_left q s)
      (c ∷ s) (λ e. trim_left_id q s) λ e. ground (arith, e)

trim_left-head : (q : ℕ) (s r : Bytes) → trim_left q s ≢ q ∷ r
unfolding trim_left
trim_left-head q [] r h = cc
trim_left-head q (c ∷ s) r h = ground (arith, trim_left-head q s r)

wrapped :
    (q : ℕ) (t : Bytes) → trim_left q t ≡ t → trim_right q t ≡ t → trim_byte q (q ∷ t ++ q ∷ []) ≡ t
unfolding trim_left trim_right
wrapped q [] l r = ground arith
wrapped q (d ∷ t) l r =
    let other : (d == q) ≡ false = ground (arith, l, trim_left-head q t t) in
    let front : trim_left q (q ∷ (d ∷ t) ++ q ∷ []) ≡ (d ∷ t) ++ q ∷ [] = ground (arith, other) in
    ap (trim_right q) front ∙ trim_right-snoc q (d ∷ t) ∙ r

pub trim_byte-wrapped :
    (q : ℕ) (s : Bytes) → trim_byte q (q ∷ trim_byte q s ++ q ∷ []) ≡ trim_byte q s
trim_byte-wrapped q s =
    wrapped q (trim_byte q s) (trim_left_id q s) (trim_right_idem q (trim_left q s))
