-- ===== src/Generator/Name/Characters.antt =====
-- Tests of strings that hold no character of some kind.
use nise_and_go.Common.{
  ℕ, zero, suc, ◌-◌, ◌≡◌, refl, sym, ap, ◌∙◌, inl, inr, Bool, true, false, not, [], ◌∷◌, none,
  arith, ◌==◌, length, drop, Bool-cases,
}
use nise_and_go.Common.Text.{Bytes, all_of, between, cut, str_eq-eq}
use nise_and_go.Common.Affix.{has_suffix, to_lower}
use nise_and_go.Generator.Name.{index_func, contains_any}

pub all_of_mono :
    (p q : ℕ → Bool) (s : Bytes)
    → ((c : ℕ) → p c ≡ true → q c ≡ true)
    → all_of p s ≡ true
    → all_of q s ≡ true
unfolding all_of
all_of_mono p q [] f h = refl
all_of_mono p q (c ∷ s) f h = ground (arith, h, f c, all_of_mono p q s f)

pub index_func-none :
    (f : ℕ → Bool) (s : Bytes) → all_of (λ c. not (f c)) s ≡ true → index_func f s ≡ none
unfolding all_of index_func
index_func-none f [] h = refl
index_func-none f (c ∷ s) h = ground (arith, h, index_func-none f s)

pub contains_any-none :
    (f : ℕ → Bool) (s : Bytes) → all_of (λ c. not (f c)) s ≡ true → contains_any f s ≡ false
unfolding all_of contains_any
contains_any-none f [] h = refl
contains_any-none f (c ∷ s) h = ground (arith, h, contains_any-none f s)

pub cut-none : (sep : ℕ) (s : Bytes) → all_of (λ c. not (c == sep)) s ≡ true → cut sep s ≡ none
unfolding all_of cut
cut-none sep [] h = refl
cut-none sep (c ∷ s) h = ground (arith, h, cut-none sep s)

pub to_lower_id : (s : Bytes) → all_of (λ c. not (between b'A' b'Z' c)) s ≡ true → to_lower s ≡ s
unfolding all_of to_lower
to_lower_id [] h = refl
to_lower_id (c ∷ s) h = ground (arith, h, to_lower_id s)

pub all_of-drop :
    (p : ℕ → Bool) (n : ℕ) (s : Bytes) → all_of p s ≡ true → all_of p (drop n s) ≡ true
unfolding all_of
all_of-drop p zero s h = h
all_of-drop p (suc n) [] h = refl
all_of-drop p (suc n) (c ∷ s) h = all_of-drop p n s (ground (arith, h))

pub no_suffix :
    (d : ℕ) (s : Bytes) → all_of (λ c. not (c == d)) s ≡ true → has_suffix s (d ∷ []) ≡ false
unfolding has_suffix all_of
no_suffix d s h = elim (Bool-cases (has_suffix s (d ∷ []))) [
  | inr e ↦ e
  | inl e ↦
      let end : drop (length s - 1) s ≡ d ∷ [] =
        str_eq-eq (drop (length s - 1) s) (d ∷ []) (ground (arith, e)) in
      let kept : all_of (λ c. not (c == d)) (d ∷ []) ≡ true =
        sym (ap (all_of (λ c. not (c == d))) end)
        ∙ all_of-drop (λ c. not (c == d)) (length s - 1) s h in
      absurd (ground (arith, kept))
]
