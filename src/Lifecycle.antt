-- ===== src/Lifecycle.antt =====
-- runtime/lifecycle/mode.go and group.go; Worker has worker.go. The components run concurrently and
-- send their outcomes to a channel; a run of the group is a sequence of steps, in which any running
-- component may stop at any time and the group receives the oldest outcome.
pub mod Times
pub mod Run
pub mod Worker
pub mod Examples
use nise_and_go.Common.{
  ℕ, zero, suc, ◌+◌, ◌-◌, ◌≡◌, Bool, true, false, ◌&&◌, ◌||◌, not, List, [], ◌∷◌, ◌++◌, Option,
  none, some, if◌then◌else◌, length,
}
use nise_and_go.Common.Text.{Bytes, codes, str_eq}
use nise_and_go.Common.Result.{Result, ok, err}

abbrev pub Mode : Type 0
Mode = Bytes

abbrev pub mode_all : Mode
mode_all = codes "all"

abbrev pub mode_web : Mode
mode_web = codes "web"

abbrev pub mode_worker : Mode
mode_worker = codes "worker"

pub data LifecycleError : Type 0 where
  unrecognized_mode unknown_mode missing_web missing_worker missing_both : Bytes → LifecycleError

unfoldable pub parse_mode : Bytes → Result LifecycleError Mode
parse_mode raw =
    if str_eq raw mode_all || str_eq raw mode_web || str_eq raw mode_worker
    then ok raw
    else err (unrecognized_mode raw)

-- The names of the components of a group; the arguments say which components are not nil.
unfoldable pub new_group : Mode → Bool → Bool → Result LifecycleError (List Bytes)
new_group mode web worker =
    if str_eq mode mode_web
    then if not web then err (missing_web mode) else ok (codes "web" ∷ [])
    else if str_eq mode mode_worker
    then if not worker then err (missing_worker mode) else ok (codes "worker" ∷ [])
    else if str_eq mode mode_all
    then if not web || not worker
      then err (missing_both mode)
      else ok (codes "web" ∷ codes "worker" ∷ [])
    else err (unknown_mode mode)

-- The name of a component and its error, if any (a number names it).
abbrev pub Outcome : Type 0
Outcome = Bytes × Option ℕ

-- The state of `Run`: the components that still run, the outcomes in the channel, and the local variables;
-- `asked` are the components whose Shutdown was called, in order, and `pending` those of them whose
-- Shutdown has not returned, for which `shutdownExcept` waits.
pub record GroupState : Type 0 where
  pub items : List Bytes
  pub running : List Bytes
  pub results : List Outcome
  pub first_err : Option (Bytes × ℕ)
  pub stopped_others : Bool
  pub remaining : ℕ
  pub asked : List Bytes
  pub pending : List Bytes

unfoldable pub begin_run : List Bytes → GroupState
begin_run items = record {
  items = items;
  running = items;
  results = [];
  first_err = none;
  stopped_others = false;
  remaining = length items;
  asked = [];
  pending = [];
}

-- The names that `shutdownExcept` goes over.
unfoldable pub others : Bytes → List Bytes → List Bytes
others skip [] = []
others skip (x ∷ xs) = if str_eq x skip then others skip xs else x ∷ others skip xs

abbrev first_error : Option (Bytes × ℕ) → Outcome → Option (Bytes × ℕ)
first_error (some e) o = some e
first_error none (name, none) = none
first_error none (name, some e) = some (name, e)

-- One round of the loop.
unfoldable pub receive : Outcome → GroupState → GroupState
unfolding others
receive o g = record g {
  first_err = first_error g.first_err o;
  stopped_others = true;
  remaining = g.remaining - 1;
  asked = if g.stopped_others then g.asked else g.asked ++ others o.0 g.items;
  pending = if g.stopped_others then g.pending else others o.0 g.items;
}

pub data Moves : GroupState → GroupState → Type 0 where
  -- A component's Run returns and its goroutine sends the outcome.
  stops :
      (g : GroupState) (before after : List Bytes) (name : Bytes) (e : Option ℕ)
      → g.running ≡ before ++ name ∷ after
      → Moves g (record g { running = before ++ after; results = g.results ++ (name, e) ∷ [] })
  -- A Shutdown returns: the component is down, or the timeout of the group has passed.
  answers :
      (g : GroupState) (before after : List Bytes) (name : Bytes)
      → g.pending ≡ before ++ name ∷ after
      → Moves g (record g { pending = before ++ after })
  -- The group receives an outcome, and does not while it waits for a Shutdown.
  receives :
      (g : GroupState) (o : Outcome) (rest : List Outcome)
      → g.pending ≡ []
      → g.results ≡ o ∷ rest
      → Moves g (receive o (record g { results = rest }))

pub data Steps : GroupState → GroupState → Type 0 where
  done : {g : GroupState} → Steps g g
  more : {g h k : GroupState} → Moves g h → Steps h k → Steps g k

-- `Group.Shutdown`: every component is asked; the errors are joined in the components' order, and none is
-- nil.
unfoldable pub group_shutdown : List Outcome → List (Bytes × ℕ)
group_shutdown [] = []
group_shutdown ((name, none) ∷ outcomes) = group_shutdown outcomes
group_shutdown ((name, some e) ∷ outcomes) = (name, e) ∷ group_shutdown outcomes
