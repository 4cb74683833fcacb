-- ===== src/Reauth.antt =====
-- examples/reference/app/internal/platform/reauth/matrix.go: which actions need a recent proof, and how
-- recent. A map is a list of keys with their values.
pub mod Declared
pub mod Examples
use nise_and_go.Common.{
  ℕ, ◌*◌, Bool, true, false, ◌&&◌, ◌||◌, not, List, [], ◌∷◌, Option, none, some, ltb, ◌==◌,
  if◌then◌else◌, length,
}
use nise_and_go.Common.Int.{pos}
use nise_and_go.Common.Clock.{Duration, minute}
use nise_and_go.Common.Text.{Bytes, codes, str_eq, all_of, between, split}
use nise_and_go.Common.Keys.{sort}
use nise_and_go.Common.Result.{Result, ok, err}
use nise_and_go.Session.Freshness.{Freshness, new_freshness}

abbrev pub window_escalation : Duration
window_escalation = pos (5 * minute)

abbrev pub window_administrative : Duration
window_administrative = pos (15 * minute)

abbrev pub Action : Type 0
Action = Bytes

-- `[a-z][a-z0-9_]*`
abbrev pub action_part : Bytes → Bool
action_part [] = false
action_part (c ∷ s) =
    between b'a' b'z' c && all_of (λ d. between b'a' b'z' d || between b'0' b'9' d || d == b'_') s

-- `Action.Valid`: at least two such parts between dots.
unfoldable pub action_valid : Action → Bool
unfolding all_of split
action_valid a = let parts = split b'.' a in ltb 1 (length parts) && all_of action_part parts

pub record Entry : Type 0 where
  pub action : Action
  pub window : Duration

pub record Matrix : Type 0 where
  pub windows : List (Action × Freshness)

pub data MatrixError : Type 0 where
  bad_action declared_twice bad_window : Action → MatrixError

unfoldable pub lookup : Action → List (Action × Freshness) → Option Freshness
unfolding str_eq
lookup a [] = none
lookup a ((b, f) ∷ windows) = let rest = lookup a windows in if str_eq b a then some f else rest

abbrev pub is_declared : Option Freshness → Bool
is_declared none = false
is_declared (some f) = true

unfoldable pub add_entries : List Entry → List (Action × Freshness) → Result MatrixError Matrix
unfolding action_valid lookup new_freshness
add_entries [] windows = ok (record { windows = windows })
add_entries (e ∷ entries) windows =
    if not (action_valid e.action)
    then err (bad_action e.action)
    else if is_declared (lookup e.action windows)
    then err (declared_twice e.action)
    else elim (new_freshness e.window) [
      | none ↦ err (bad_window e.action)
      | some f ↦ add_entries entries ((e.action, f) ∷ windows)
    ]

unfoldable pub new_matrix : List Entry → Result MatrixError Matrix
unfolding add_entries
new_matrix entries = add_entries entries []

abbrev entry : Bytes → Duration → Entry
entry a w = record { action = a; window = w }

unfoldable pub default_matrix : Result MatrixError Matrix
unfolding new_matrix
default_matrix = new_matrix (
    entry (codes "roles.grant") window_escalation
    ∷ entry (codes "users.enable") window_administrative
    ∷ entry (codes "invitations.create") window_administrative
    ∷ entry (codes "second_factor.disable") window_escalation
    ∷ entry (codes "resources.retire") window_administrative
    ∷ [])

-- `Matrix.Freshness`; the matrix `none` is nil.
unfoldable pub freshness : Option Matrix → Action → Option Freshness
unfolding lookup
freshness none a = none
freshness (some m) a = lookup a m.windows

names : List (Action × Freshness) → List Action
names [] = []
names ((a, f) ∷ windows) = a ∷ names windows

unfoldable pub actions : Option Matrix → List Action
unfolding sort names
actions none = []
actions (some m) = sort (names m.windows)
