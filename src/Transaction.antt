-- ===== src/Transaction.antt =====
-- runtime/transaction/transaction.go. A transaction is driven by a script of the outcomes that its
-- collaborators have: what the driver answers, whether the context is cancelled at the two moments at
-- which it is asked, and how the work ends. What is done to the driver is recorded in a log.
pub mod Atomic
pub mod Examples
use nise_and_go.Common.{
  ◌*◌, ℕ, suc, ◌+◌, Bool, true, false, ◌&&◌, ◌||◌, not, List, [], ◌∷◌, ◌++◌, Option, none, some,
  ltb, if◌then◌else◌,
}
use nise_and_go.Common.Int.{ℤ, pos, leb_ℤ}
use nise_and_go.Common.Clock.{Duration, second}
use nise_and_go.Common.Text.{Bytes, codes, str_eq}
use nise_and_go.Common.Keys.{contains}
use nise_and_go.Common.Result.{Result, ok, err}

abbrev pub default_rollback_timeout : Duration
default_rollback_timeout = pos (5 * second)

abbrev pub isolations : List Bytes
isolations = [] ∷ codes "read_committed" ∷ codes "repeatable_read" ∷ codes "serializable" ∷ []

abbrev pub access_modes : List Bytes
access_modes = [] ∷ codes "read_write" ∷ codes "read_only" ∷ []

pub record Options : Type 0 where
  pub isolation : Bytes
  pub access : Bytes

-- An error of the package, or one that a collaborator gave (a number names it), with the error of a
-- rollback if that failed too.
pub data TransactionError : Type 0 where
  isolation_unsupported access_unsupported : Bytes → TransactionError
  timeout_not_positive nil_begin nil_runner nil_context nil_work nested : TransactionError
  nil_option bad_option : ℕ → TransactionError
  cancelled work_failed begin_failed commit_failed rollback_failed : ℕ → TransactionError

-- How `Within` ends: it returns nil or the joined errors, it panics, or the goroutine exits.
pub data Outcome : Type 0 where
  succeeded exited : Outcome
  failed : List TransactionError → Outcome
  panicked : ℕ → Outcome

unfoldable pub validate : Options → Option TransactionError
unfolding contains
validate o =
    if not (contains isolations o.isolation)
    then some (isolation_unsupported o.isolation)
    else if not (contains access_modes o.access)
    then some (access_unsupported o.access)
    else none

-- `none` is a nil option; an option sets the timeout of the cleanup.
unfoldable pub configure : ℕ → List (Option Duration) → Duration → Result TransactionError Duration
configure index [] timeout = ok timeout
configure index (none ∷ options) timeout = err (nil_option index)
configure index (some t ∷ options) timeout =
    let rest = configure (index + 1) options t in
    if leb_ℤ t (pos 0) then err (bad_option index) else rest

-- `New`, whose result is the timeout of the runner; `has_begin` says that `begin` is not nil.
unfoldable pub new : Bool → List (Option Duration) → Result TransactionError Duration
unfolding configure
new has_begin options =
    if not has_begin then err nil_begin else configure 0 options default_rollback_timeout

-- How a call ends: nil, an error, or a panic.
pub data End : Type 0 where
  returns : End
  returns_error panics : ℕ → End

-- How the work ends: as a call does, or by `runtime.Goexit`, of which `recover` knows nothing.
pub data WorkEnd : Type 0 where
  ends : End → WorkEnd
  exits : WorkEnd

-- What the collaborators do; `rollback_again` is the rollback of the deferred function when the first
-- panicked. The errors of the context, before the begin and after the work, are none while it is not
-- cancelled.
pub record Script : Type 0 where
  pub begin : End
  pub work : WorkEnd
  pub commit : End
  pub rollback : End
  pub rollback_again : End
  pub cancelled_before : Option ℕ
  pub cancelled_after : Option ℕ

-- What is done: the driver's calls with how they end, and the work. The context of a rollback is bounded
-- by the runner's timeout and not cancelled with the caller's.
pub data Step : Type 0 where
  begun : End → Step
  worked : Step
  committed : End → Step
  rolled_back : Duration → End → Step

-- The caller's arguments: what is nil, and whether the context comes from a callback of `Within`.
pub record Request : Type 0 where
  pub has_runner : Bool
  pub has_context : Bool
  pub has_work : Bool
  pub active : Bool
  pub options : Options

-- The deferred function after a panic: a rollback, whose own panic replaces the first.
unfoldable pub recovering : Duration → ℕ → End → Outcome × List Step
recovering timeout p (panics q) = (panicked q, rolled_back timeout (panics q) ∷ [])
recovering timeout p returns = (panicked p, rolled_back timeout returns ∷ [])
recovering timeout p (returns_error e) = (panicked p, rolled_back timeout (returns_error e) ∷ [])

-- `errors.Join(err, r.rollback(ctx, tx))`; a rollback that panics gets to the deferred function.
unfoldable pub undo : Duration → TransactionError → Script → Outcome × List Step
unfolding recovering
undo timeout error s = elim s.rollback [
  | returns ↦ (failed (error ∷ []), rolled_back timeout returns ∷ [])
  | returns_error e ↦
      (failed (error ∷ rollback_failed e ∷ []), rolled_back timeout (returns_error e) ∷ [])
  | panics q ↦
      let (outcome, steps) = recovering timeout q s.rollback_again in
      (outcome, rolled_back timeout (panics q) ∷ steps)
]

-- The same with the error of the rollback dropped, after a commit that failed.
unfoldable pub undo_commit : Duration → ℕ → Script → Outcome × List Step
unfolding recovering
undo_commit timeout error s = elim s.rollback [
  | returns ↦ (failed (commit_failed error ∷ []), rolled_back timeout returns ∷ [])
  | returns_error e ↦
      (failed (commit_failed error ∷ []), rolled_back timeout (returns_error e) ∷ [])
  | panics q ↦
      let (outcome, steps) = recovering timeout q s.rollback_again in
      (outcome, rolled_back timeout (panics q) ∷ steps)
]

unfoldable pub commit_work : Duration → Script → Outcome × List Step
unfolding recovering undo_commit
commit_work timeout s = elim s.commit [
  | returns ↦ (succeeded, committed returns ∷ [])
  | returns_error e ↦
      let (outcome, steps) = undo_commit timeout e s in
      (outcome, committed (returns_error e) ∷ steps)
  | panics p ↦
      let (outcome, steps) = recovering timeout p s.rollback in
      (outcome, committed (panics p) ∷ steps)
]

-- Every way out of `Within` after the driver has begun.
unfoldable pub finish : Duration → Script → Outcome × List Step
unfolding recovering undo commit_work
finish timeout s = elim s.work [
  | exits ↦ (exited, [])
  | ends (panics p) ↦ recovering timeout p s.rollback
  | ends (returns_error e) ↦ undo timeout (work_failed e) s
  | ends returns ↦ elim s.cancelled_after [
    | some c ↦ undo timeout (cancelled c) s
    | none ↦ commit_work timeout s
  ]
]

-- The checks before the driver is asked, in their order.
unfoldable pub refusal : Request → Script → Option TransactionError
unfolding validate
refusal r s =
    if not r.has_runner
    then some nil_runner
    else if not r.has_context
    then some nil_context
    else if not r.has_work
    then some nil_work
    else if r.active
    then some nested
    else elim (validate r.options) [
      | some e ↦ some e
      | none ↦ elim s.cancelled_before [ some c ↦ some (cancelled c) | none ↦ none ]
    ]

unfoldable pub within : Duration → Request → Script → Outcome × List Step
unfolding refusal finish
within timeout r s = elim (refusal r s) [
  | some e ↦ (failed (e ∷ []), [])
  | none ↦ elim s.begin [
    | returns_error e ↦ (failed (begin_failed e ∷ []), begun (returns_error e) ∷ [])
    | panics p ↦ (panicked p, begun (panics p) ∷ [])
    | returns ↦ let (outcome, steps) = finish timeout s in (outcome, begun returns ∷ worked ∷ steps)
  ]
]
