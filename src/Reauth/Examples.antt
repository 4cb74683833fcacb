-- ===== src/Reauth/Examples.antt =====
-- The default matrix, and one that names an action twice.
use nise_and_go.Common.{◌≡◌, refl, true, List, [], ◌∷◌, some}
use nise_and_go.Common.Text.{codes}
use nise_and_go.Common.Result.{ok, err}
use nise_and_go.Session.Freshness.{Freshness, IsBounded}
use nise_and_go.Reauth.{
  Entry, Matrix, new_matrix, freshness, actions, action_valid, declared_twice, bad_action,
  window_escalation, window_administrative,
}
use nise_and_go.Reauth.Declared.{declared, new_matrix_lem}

abbrev two_entries : List Entry
two_entries =
    record { action = codes "roles.grant"; window = window_escalation }
    ∷ record { action = codes "users.enable"; window = window_administrative }
    ∷ []

abbrev two_windows : Matrix
two_windows = record {
  windows =
      (codes "users.enable", record { window = window_administrative })
      ∷ (codes "roles.grant", record { window = window_escalation })
      ∷ [];
}

two_entries_run : new_matrix two_entries ≡ ok two_windows
unfolding new_matrix
two_entries_run = refl

twice_runs :
    new_matrix (record { action = codes "users.enable"; window = window_escalation } ∷ two_entries)
    ≡ err (declared_twice (codes "users.enable"))
unfolding new_matrix
twice_runs = refl

malformed_runs :
    new_matrix (record { action = codes "users"; window = window_escalation } ∷ [])
    ≡ err (bad_action (codes "users"))
unfolding new_matrix
malformed_runs = refl

actions_run : actions (some two_windows) ≡ codes "roles.grant" ∷ codes "users.enable" ∷ []
unfolding actions
actions_run = refl

new_matrix_lem_example :
    (freshness (some two_windows) (codes "users.enable")
      ≡ declared (codes "users.enable") two_entries)
    × ((f : Freshness)
        → freshness (some two_windows) (codes "users.enable") ≡ some f
        → IsBounded f × (action_valid (codes "users.enable") ≡ true))
new_matrix_lem_example =
    new_matrix_lem two_entries two_windows (codes "users.enable") two_entries_run
