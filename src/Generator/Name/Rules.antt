-- ===== src/Generator/Name/Rules.antt =====
-- Rules that are checked one after another.
use nise_and_go.Common.{
  ℕ, ◌≤◌, ◌≡◌, refl, Bool, true, false, ◌&&◌, not, [], ◌∷◌, Option, none, some, arith, ltb,
  if◌then◌else◌,
}
use nise_and_go.Common.Text.{Bytes, is_empty}
use nise_and_go.Generator.Name.{NameError, control_or_non_ascii}
use nise_and_go.Generator.Name.Runs.{starts_in}

-- A rule that is not broken.
pub passed :
    (b : Bool) (e : NameError) (r : Option NameError)
    → (if b then some e else r) ≡ none
    → (b ≡ false) × (r ≡ none)
passed true e r h = cc
passed false e r h = (refl, h)

pub not-false : (b : Bool) → not b ≡ false → b ≡ true
not-false true h = refl
not-false false h = cc

pub starts_in-full : (p : ℕ → Bool) (s : Bytes) → starts_in p s ≡ true → is_empty s ≡ false
starts_in-full p [] h = cc
starts_in-full p (c ∷ s) h = refl

pub ascii_rules :
    (o : Option ℕ) (r : Option NameError)
    → elim o [ some i ↦ some (control_or_non_ascii i) | none ↦ r ] ≡ none
    → (o ≡ none) × (r ≡ none)
ascii_rules none r h = (refl, h)
ascii_rules (some i) r h = cc

pub short_enough : (n limit : ℕ) → ltb limit n ≡ false → n ≤ limit
short_enough n limit h = ground arith

pub not_long : (n limit : ℕ) → n ≤ limit → ltb limit n ≡ false
not_long n limit h = ground arith

pub each-true : (a b : Bool) → (a && b) ≡ true → (a ≡ true) × (b ≡ true)
each-true true b h = (refl, h)
each-true false b h = cc

pub not-true : (b : Bool) → not b ≡ true → b ≡ false
not-true true h = cc
not-true false h = refl
