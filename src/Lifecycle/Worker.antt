-- ===== src/Lifecycle/Worker.antt =====
-- runtime/lifecycle/worker.go: the worker. Its critical sections and what goroutines wait for are the
-- events; `Run` is called at most once, `Shutdown` any number of times and at any moment.
pub mod Stopped
use nise_and_go.Common.{
  ℕ, ◌+◌, ◌-◌, Bool, true, false, ◌&&◌, ◌||◌, not, List, [], ◌∷◌, Option, none, some, ltb,
  if◌then◌else◌,
}

pub data WorkerState : Type 0 where
  worker_idle worker_running worker_stopped : WorkerState

-- Where the call of `Run` is: before it, in the loop, after the loop and before the second critical
-- section, after that and before `done` is closed, and returned.
pub data Phase : Type 0 where
  not_called in_loop loop_returned marked over : Phase

-- Beside the fields of the struct: the calls of the loop, the calls of `Shutdown` that wait, and the results
-- of those that have returned, nil as `true`, the latest first.
pub record Worker : Type 0 where
  pub state : WorkerState
  pub cancelled : Bool
  pub done : Bool
  pub phase : Phase
  pub calls : ℕ
  pub waiting : ℕ
  pub answers : List Bool

unfoldable pub new_worker : Worker
new_worker = record {
  state = worker_idle;
  cancelled = false;
  done = false;
  phase = not_called;
  calls = 0;
  waiting = 0;
  answers = [];
}

pub data WorkerEvent : Type 0 where
  run_enters loop_ends run_marks run_closes : WorkerEvent
  shutdown_enters shutdown_sees_done shutdown_times_out : WorkerEvent

-- The first critical section of `Run`; a worker that was stopped before is not started.
unfoldable pub enter : Worker → Worker
enter w = elim w.state [
  | worker_stopped ↦ record w { phase = over }
  | worker_idle ↦ record w { state = worker_running; phase = in_loop; calls = w.calls + 1 }
  | worker_running ↦ record w { state = worker_running; phase = in_loop; calls = w.calls + 1 }
]

-- The critical section of `Shutdown`, with the cancellation behind it.
unfoldable pub ask : Worker → Worker
ask w = elim w.state [
  | worker_idle ↦ record w { state = worker_stopped; answers = true ∷ w.answers }
  | worker_stopped ↦ record w { answers = true ∷ w.answers }
  | worker_running ↦ record w { cancelled = true; waiting = w.waiting + 1 }
]

-- `none` is an event that cannot happen now.
unfoldable pub worker_step : WorkerEvent → Worker → Option Worker
unfolding enter ask
worker_step run_enters w = elim w.phase [ not_called ↦ some (enter w) | _ ↦ none ]
worker_step loop_ends w = elim w.phase [
  | in_loop ↦ some (record w { phase = loop_returned })
  | _ ↦ none
]
worker_step run_marks w = elim w.phase [
  | loop_returned ↦ some (record w { state = worker_stopped; phase = marked })
  | _ ↦ none
]
worker_step run_closes w = elim w.phase [
  | marked ↦ some (record w { cancelled = true; done = true; phase = over })
  | _ ↦ none
]
worker_step shutdown_enters w = some (ask w)
worker_step shutdown_sees_done w =
    if ltb 0 w.waiting && w.done
    then some (record w { waiting = w.waiting - 1; answers = true ∷ w.answers })
    else none
worker_step shutdown_times_out w =
    if ltb 0 w.waiting
    then some (record w { waiting = w.waiting - 1; answers = false ∷ w.answers })
    else none

unfoldable pub worker_run : List WorkerEvent → Worker → Option Worker
unfolding worker_step
worker_run [] w = some w
worker_run (e ∷ events) w = elim (worker_step e w) [ none ↦ none | some v ↦ worker_run events v ]
