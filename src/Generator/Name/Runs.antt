-- ===== src/Generator/Name/Runs.antt =====
-- What the expressions for names match, said of the parts between separators.
use nise_and_go.Common.{
  ℕ, ◌≡◌, refl, ap, ◌∙◌, inl, inr, Bool, true, false, ◌&&◌, ◌||◌, not, List, [], ◌∷◌, arith, ◌==◌,
  Bool-cases,
}
use nise_and_go.Common.Text.{Bytes, is_empty, all_of, split, push_front}
use nise_and_go.Generator.Name.{
  runs, lower_letter, lower_digit, letter_digit, path_character, matches_name, matches_module_path,
}

-- A part: characters of a class, at least one.
abbrev pub is_run : (ℕ → Bool) → Bytes → Bool
is_run p w = not (is_empty w) && all_of p w

-- The first of the parts may be empty.
abbrev loose : (ℕ → Bool) → List Bytes → Bool
loose p [] = true
loose p (w ∷ ws) = all_of p w && all_of (is_run p) ws

push_front-loose :
    (p : ℕ → Bool) (c : ℕ) (ws : List Bytes)
    → all_of (is_run p) (push_front c ws) ≡ (p c && loose p ws)
unfolding push_front all_of
push_front-loose p c [] = ground arith
push_front-loose p c (w ∷ ws) = ground arith

loose-push_front :
    (p : ℕ → Bool) (c : ℕ) (ws : List Bytes) → loose p (push_front c ws) ≡ (p c && loose p ws)
unfolding push_front all_of
loose-push_front p c [] = ground arith
loose-push_front p c (w ∷ ws) = ground arith

runs-loose :
    (p : ℕ → Bool) (sep : ℕ) (s : Bytes)
    → p sep ≡ false
    → (runs p sep false s ≡ all_of (is_run p) (split sep s))
      × (runs p sep true s ≡ loose p (split sep s))
unfolding runs split all_of
runs-loose p sep [] h = (refl, refl)
runs-loose p sep (c ∷ s) h =
    let (strict, free) = runs-loose p sep s h in
    elim (Bool-cases (c == sep)) [
      | inl e ↦
          let same : p c ≡ false = ap p (ground (arith, e)) ∙ h in
          (rw (e, same) refl, rw (e, same) strict)
      | inr e ↦ elim (Bool-cases (p c)) [
        | inl q ↦ (
          rw (e, q, push_front-loose p c (split sep s), q) free,
          rw (e, q, loose-push_front p c (split sep s), q) free,
        )
        | inr q ↦ (
          rw (e, q, push_front-loose p c (split sep s), q) refl,
          rw (e, q, loose-push_front p c (split sep s), q) refl,
        )
      ]
    ]

abbrev pub starts_in : (ℕ → Bool) → Bytes → Bool
starts_in p [] = false
starts_in p (c ∷ s) = p c

pub matches_name-parts :
    (s : Bytes)
    → matches_name s ≡ (starts_in lower_letter s && all_of (is_run lower_digit) (split b'-' s))
unfolding matches_name
matches_name-parts [] = refl
matches_name-parts (c ∷ s) = elim (Bool-cases (lower_letter c)) [
  | inr q ↦ rw q refl
  | inl q ↦
      let digit : lower_digit c ≡ true = ground (arith, q) in
      let (strict, free) = runs-loose lower_digit b'-' (c ∷ s) refl in
      ground (arith, q, digit, strict, runs)
]

pub matches_module_path-parts :
    (s : Bytes)
    → matches_module_path s
      ≡ (starts_in letter_digit s && all_of (is_run path_character) (split b'/' s))
unfolding matches_module_path
matches_module_path-parts [] = refl
matches_module_path-parts (c ∷ s) = elim (Bool-cases (letter_digit c)) [
  | inr q ↦ rw q refl
  | inl q ↦
      let (strict, free) = runs-loose path_character b'/' (c ∷ s) refl in
      ground (arith, q, strict, runs)
]

-- Every character of a match is of the class or the separator.
pub runs-characters :
    (p : ℕ → Bool) (sep : ℕ) (after : Bool) (s : Bytes)
    → runs p sep after s ≡ true
    → all_of (λ c. p c || c == sep) s ≡ true
unfolding runs all_of
runs-characters p sep after [] h = refl
runs-characters p sep after (c ∷ s) h = ground (arith, h, runs-characters p sep (p c) s)
