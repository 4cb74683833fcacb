-- ===== src/Reauth/Declared.antt =====
-- A matrix holds what was declared.
use nise_and_go.Common.{
  subst, ◌≡◌, refl, sym, ap, ◌∙◌, inl, inr, true, false, not, List, [], ◌∷◌, Option, none, some,
  arith, if◌then◌else◌, Bool-cases,
}
use nise_and_go.Common.Clock.{Duration}
use nise_and_go.Common.Text.{str_eq, str_eq-eq}
use nise_and_go.Common.Result.{ok, err, guard-passed}
use nise_and_go.Session.Freshness.{Freshness, new_freshness, IsBounded, new_freshness-IsBounded}
use nise_and_go.Reauth.{
  Action, action_valid, Entry, Matrix, bad_action, declared_twice, bad_window, lookup, is_declared,
  add_entries, new_matrix, freshness,
}

-- The window that the entries declare for an action.
abbrev pub declared : Action → List Entry → Option Freshness
declared a [] = none
declared a (e ∷ entries) =
    let rest = declared a entries in
    if str_eq e.action a then some (record { window = e.window }) else rest

abbrev or_else : Option Freshness → Option Freshness → Option Freshness
or_else none d = d
or_else (some f) d = some f

new_freshness-window :
    (w : Duration) (f : Freshness) → new_freshness w ≡ some f → f ≡ record { window = w }
unfolding new_freshness
new_freshness-window w f h = ground (arith, h)

or_else-none : (o : Option Freshness) → o ≡ or_else o none
or_else-none none = refl
or_else-none (some f) = refl

undeclared : (o : Option Freshness) → is_declared o ≡ false → o ≡ none
undeclared none h = refl
undeclared (some f) h = cc

abbrev Good : List (Action × Freshness) → Type 0
Good windows =
    (a : Action) (f : Freshness) → lookup a windows ≡ some f → IsBounded f × (action_valid a ≡ true)

window_found :
    (o : Option Freshness) (entries : List Entry) (a : Action) (windows : List (Action × Freshness))
    (m : Matrix)
    → elim o [ none ↦ err (bad_window a) | some f ↦ add_entries entries ((a, f) ∷ windows) ] ≡ ok m
    → (f : Freshness) × (o ≡ some f) × (add_entries entries ((a, f) ∷ windows) ≡ ok m)
window_found none entries a windows m h = cc
window_found (some f) entries a windows m h = (f, refl, h)

-- One entry that was accepted.
entry_added :
    (e : Entry) (entries : List Entry) (windows : List (Action × Freshness)) (m : Matrix)
    → add_entries (e ∷ entries) windows ≡ ok m
    → (f : Freshness) × (action_valid e.action ≡ true)
      × (lookup e.action windows ≡ none)
      × (new_freshness e.window ≡ some f)
      × (add_entries entries ((e.action, f) ∷ windows) ≡ ok m)
unfolding add_entries
entry_added e entries windows m h =
    let (valid, h1) = guard-passed (not (action_valid e.action)) (bad_action e.action) _ h in
    let (fresh, h2) =
      guard-passed (is_declared (lookup e.action windows)) (declared_twice e.action) _ h1 in
    let (f, q, h3) = window_found (new_freshness e.window) entries e.action windows m h2 in
    (f, ground (arith, valid), undeclared (lookup e.action windows) fresh, q, h3)

cons-Good :
    (a : Action) (f : Freshness) (windows : List (Action × Freshness))
    → Good windows
    → IsBounded f
    → action_valid a ≡ true
    → Good ((a, f) ∷ windows)
unfolding lookup
cons-Good a f windows good b v c g h = elim (Bool-cases (str_eq a c)) [
  | inr n ↦ let rest : lookup c windows ≡ some g = rw n at h in good c g rest
  | inl e ↦
      let found : some f ≡ some g = rw e at h in
      let same : f ≡ g = cc found in
      (subst IsBounded same b, subst (λ x. action_valid x ≡ true) (str_eq-eq a c e) v)
]

add_entries-Good :
    (entries : List Entry) (windows : List (Action × Freshness)) (m : Matrix)
    → add_entries entries windows ≡ ok m
    → Good windows
    → Good m.windows
unfolding add_entries
add_entries-Good [] windows m h good = let same : windows ≡ m.windows = cc h in subst Good same good
add_entries-Good (e ∷ entries) windows m h good =
    let (f, valid, fresh, q, rest) = entry_added e entries windows m h in
    add_entries-Good entries ((e.action, f) ∷ windows) m rest
      (cons-Good e.action f windows good (new_freshness-IsBounded e.window q) valid)

add_entries-lookup :
    (entries : List Entry) (windows : List (Action × Freshness)) (m : Matrix) (a : Action)
    → add_entries entries windows ≡ ok m
    → lookup a m.windows ≡ or_else (lookup a windows) (declared a entries)
unfolding add_entries
add_entries-lookup [] windows m a h =
    let same : windows ≡ m.windows = cc h in
    ap (lookup a) (sym same) ∙ or_else-none (lookup a windows)
add_entries-lookup (e ∷ entries) windows m a h =
    let (f, valid, fresh, q, rest) = entry_added e entries windows m h in
    let ih = add_entries-lookup entries ((e.action, f) ∷ windows) m a rest in
    let exact = new_freshness-window e.window f q in
    elim (Bool-cases (str_eq e.action a)) [
      | inl y ↦
          let gone : lookup a windows ≡ none =
            subst (λ x. lookup x windows ≡ none) (str_eq-eq e.action a y) fresh in
          ih ∙ rw (y, gone, exact, lookup) refl
      | inr n ↦ ih ∙ rw (n, lookup) refl
    ]

-- A matrix that `NewMatrix` returns asks of every action exactly the window that an entry declares for it,
-- and knows no other action; each action that it knows is well formed, and its window lies within the bounds
-- of the session's reauthentication.
pub new_matrix_lem :
    (entries : List Entry) (m : Matrix) (a : Action)
    → new_matrix entries ≡ ok m
    → (freshness (some m) a ≡ declared a entries)
      × ((f : Freshness) → freshness (some m) a ≡ some f → IsBounded f × (action_valid a ≡ true))
unfolding new_matrix freshness lookup
new_matrix_lem entries m a h = (
  add_entries-lookup entries [] m a h,
  λ f k. add_entries-Good entries [] m h (λ c g q. cc q) a f k,
)
