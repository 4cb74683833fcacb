-- ===== src/Transaction/Examples.antt =====
-- Transactions that fail in different ways, and the theorem at one.
use nise_and_go.Common.{◌&&◌, ◌≡◌, refl, true, false, [], ◌∷◌, some, none}
use nise_and_go.Common.Text.{str_eq, codes}
use nise_and_go.Common.Int.{pos}
use nise_and_go.Common.Result.{err}
use nise_and_go.Transaction.{
  panicked, exited, panics, exits, ends, returns_error, Script, Request, returns, within, failed,
  commit_failed, nested, begun, worked, committed, rolled_back, default_rollback_timeout, new,
  bad_option,
}
use nise_and_go.Transaction.Atomic.{tried_commit, Database, effects, atomic, within-atomic}

abbrev plain_request : Request
plain_request = record {
  has_runner = true;
  has_context = true;
  has_work = true;
  active = false;
  options = record { isolation = codes "serializable"; access = [] };
}

abbrev refused_commit : Script
refused_commit = record {
  begin = returns;
  work = ends returns;
  commit = returns_error 40001;
  rollback = returns;
  rollback_again = returns;
  cancelled_before = none;
  cancelled_after = none;
}

refused_commit_runs : within default_rollback_timeout plain_request refused_commit ≡ (
  failed (commit_failed 40001 ∷ []),
  begun returns
      ∷ worked
      ∷ committed (returns_error 40001)
      ∷ rolled_back default_rollback_timeout returns
      ∷ [],
)
unfolding within str_eq
refused_commit_runs = refl

nested_runs :
    within default_rollback_timeout (record plain_request { active = true }) refused_commit
    ≡ (failed (nested ∷ []), [])
unfolding within
nested_runs = refl

bad_option_runs : new true (some (pos 1) ∷ some (pos 0) ∷ []) ≡ err (bad_option 1)
unfolding new
bad_option_runs = refl

abbrev one_stored : Database
one_stored = record { open_work = none; stored = 1 ∷ [] }

-- A rollback that panics is tried once more by the deferred function, whose panic is the rollback's.
panicking_rollback_runs :
    within default_rollback_timeout plain_request
      (record refused_commit { work = ends (returns_error 1); rollback = panics 2 })
    ≡ (
      panicked 2,
      begun returns
          ∷ worked
          ∷ rolled_back default_rollback_timeout (panics 2)
          ∷ rolled_back default_rollback_timeout returns
          ∷ [],
    )
unfolding within str_eq
panicking_rollback_runs = refl

exiting_work_runs :
    within default_rollback_timeout plain_request (record refused_commit { work = exits })
    ≡ (exited, begun returns ∷ worked ∷ [])
unfolding within str_eq
exiting_work_runs = refl

-- The commit's answer was lost: the work is stored, and the caller has an error.
within-atomic_example :
    effects 2 true (within default_rollback_timeout plain_request refused_commit).1 one_stored
    ≡ atomic 2
        (true && tried_commit (within default_rollback_timeout plain_request refused_commit).1)
        (within default_rollback_timeout plain_request refused_commit).0
        one_stored
within-atomic_example =
    within-atomic 2 true default_rollback_timeout plain_request refused_commit one_stored refl refl
