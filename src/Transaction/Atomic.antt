-- ===== src/Transaction/Atomic.antt =====
-- A transaction that has begun ends in exactly one way.
use nise_and_go.Common.{
  ℕ, ◌≡◌, Bool, true, false, ◌&&◌, List, [], ◌∷◌, ◌++◌, Option, none, some, arith, if◌then◌else◌,
}
use nise_and_go.Common.Clock.{Duration}
use nise_and_go.Transaction.{
  Outcome, succeeded, failed, panicked, exited, End, returns, returns_error, panics, Script, Step,
  begun, worked, committed, rolled_back, Request, finish, undo, undo_commit, commit_work,
  recovering, within,
}

-- A database that follows the driver's calls: what it holds is the work of transactions that were
-- committed, and a transaction is open from a successful begin on.
pub record Database : Type 0 where
  pub open_work : Option ℕ
  pub stored : List ℕ

abbrev store : ℕ → Database → Database
store n d = record { open_work = none; stored = d.stored ++ n ∷ [] }

-- A commit that fails has closed and stored the transaction all the same if `landed`: its answer may be
-- lost. A rollback that returns has closed what is open, one that panics has not.
unfoldable pub effect : ℕ → Bool → Step → Database → Database
effect n landed (begun returns) d = record d { open_work = some n }
effect n landed (begun (returns_error e)) d = d
effect n landed (begun (panics p)) d = d
effect n landed worked d = d
effect n landed (committed returns) d = store n d
effect n landed (committed (returns_error e)) d = if landed then store n d else d
effect n landed (committed (panics p)) d = if landed then store n d else d
effect n landed (rolled_back t returns) d = record d { open_work = none }
effect n landed (rolled_back t (returns_error e)) d = record d { open_work = none }
effect n landed (rolled_back t (panics p)) d = d

unfoldable pub effects : ℕ → Bool → List Step → Database → Database
unfolding effect
effects n landed [] d = d
effects n landed (s ∷ steps) d = effects n landed steps (effect n landed s d)

-- The driver was asked to commit.
abbrev pub tried_commit : List Step → Bool
tried_commit [] = false
tried_commit (committed e ∷ steps) = true
tried_commit (begun e ∷ steps) = tried_commit steps
tried_commit (worked ∷ steps) = tried_commit steps
tried_commit (rolled_back t e ∷ steps) = tried_commit steps

abbrev pub rollback_returns : End → Bool
rollback_returns (panics p) = false
rollback_returns returns = true
rollback_returns (returns_error e) = true

-- The abstract transaction, of which `lost` says that it was stored without the caller being told.
abbrev pub atomic : ℕ → Bool → Outcome → Database → Database
atomic n lost succeeded d = store n d
atomic n lost exited d = record d { open_work = some n }
atomic n lost (failed errors) d = if lost then store n d else d
atomic n lost (panicked p) d = if lost then store n d else d

-- What `Within` does to the driver is what its outcome says: nil means that the work is stored, an error or
-- a panic that the database is as before and no transaction is open, unless the driver was asked to commit,
-- stored the work and failed to say so. Only work that leaves the goroutine by `runtime.Goexit` leaves its
-- transaction open. The database had none open, and no rollback panics.
pub within-atomic :
    (n : ℕ) (landed : Bool) (timeout : Duration) (r : Request) (s : Script) (d : Database)
    → d.open_work ≡ none
    → rollback_returns s.rollback ≡ true
    → effects n landed (within timeout r s).1 d
      ≡ atomic n (landed && tried_commit (within timeout r s).1) (within timeout r s).0 d
unfolding within finish undo undo_commit commit_work recovering effects
within-atomic n landed timeout r s d h q = ground (arith, h, q)
