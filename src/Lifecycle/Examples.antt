-- ===== src/Lifecycle/Examples.antt =====
-- Both components of a process, of which the worker fails first, and a worker that is shut down twice.
use nise_and_go.Common.{
  false, ◌*◌, ◌≤◌, ◌≡◌, ◌≢◌, refl, ◌⊎◌, true, List, [], ◌∷◌, none, some, length,
}
use nise_and_go.Common.Text.{Bytes, codes, str_eq}
use nise_and_go.Common.Result.{ok, err}
use nise_and_go.Lifecycle.{
  answers, group_shutdown, Outcome, GroupState, begin_run, receive, stops, receives, Steps, done,
  more, others, parse_mode, new_group, mode_all, unrecognized_mode,
}
use nise_and_go.Common.Maybe.{is_some}
use nise_and_go.Lifecycle.Worker.{
  WorkerEvent, Worker, worker_stopped, in_loop, over, new_worker, worker_run, run_enters, loop_ends,
  run_marks, run_closes, shutdown_enters, shutdown_sees_done,
}
use nise_and_go.Lifecycle.Worker.Stopped.{stopped_for_good}
use nise_and_go.Lifecycle.Run.{Waits, count, heard, run_bounded}

mode_runs : parse_mode (codes "Web") ≡ err (unrecognized_mode (codes "Web"))
unfolding parse_mode str_eq
mode_runs = refl

group_runs : new_group mode_all true true ≡ ok (codes "web" ∷ codes "worker" ∷ [])
unfolding new_group str_eq
group_runs = refl

abbrev both : List Bytes
both = codes "web" ∷ codes "worker" ∷ []

abbrev worker_failed : Outcome
worker_failed = (codes "worker", some 5)

abbrev web_stopped : Outcome
web_stopped = (codes "web", none)

abbrev first_state : GroupState
first_state = record (begin_run both) { running = codes "web" ∷ []; results = worker_failed ∷ [] }

abbrev second_state : GroupState
second_state = receive worker_failed (record first_state { results = [] })

abbrev third_state : GroupState
third_state = record second_state { running = []; results = web_stopped ∷ [] }

abbrev fourth_state : GroupState
fourth_state = record third_state { pending = [] }

abbrev last_state : GroupState
last_state = receive web_stopped (record fourth_state { results = [] })

-- The worker fails, the web component is asked and stops, its Shutdown returns, and its outcome comes last.
failing_run : Steps (begin_run both) last_state
unfolding begin_run receive others str_eq
failing_run = more (stops (begin_run both) (codes "web" ∷ []) [] (codes "worker") (some 5) refl) (
    more (receives first_state worker_failed [] refl refl) (
      more (stops second_state [] [] (codes "web") none refl) (
        more (answers third_state [] [] (codes "web") refl)
          (more (receives fourth_state web_stopped [] refl refl) done))))

run_bounded_example :
    (count failing_run ≤ 3 * length both)
    × (((last_state.remaining ≡ 0) × (last_state.pending ≡ []))
        ⊎ Waits last_state (heard failing_run))
run_bounded_example = run_bounded mode_all true true failing_run group_runs

-- Shutdown comes while the loop runs, and a second one after it has ended.
abbrev worker_events : List WorkerEvent
worker_events =
    run_enters ∷ shutdown_enters ∷ loop_ends ∷ run_marks ∷ run_closes ∷ shutdown_sees_done ∷ []

abbrev ended_worker : Worker
ended_worker = record {
  state = worker_stopped;
  cancelled = true;
  done = true;
  phase = over;
  calls = 1;
  waiting = 0;
  answers = true ∷ [];
}

abbrev asked_again : Worker
asked_again = record ended_worker { answers = true ∷ true ∷ [] }

worker_runs : worker_run worker_events new_worker ≡ some ended_worker
unfolding worker_run new_worker
worker_runs = refl

asked_again_runs : worker_run (shutdown_enters ∷ []) ended_worker ≡ some asked_again
unfolding worker_run
asked_again_runs = refl

early_shutdown_runs :
    is_some (worker_run (shutdown_enters ∷ run_enters ∷ loop_ends ∷ []) new_worker) ≡ false
unfolding worker_run new_worker
early_shutdown_runs = refl

stopped_for_good_example :
    (ended_worker.phase ≢ in_loop)
    × (asked_again.phase ≢ in_loop)
    × (asked_again.calls ≡ ended_worker.calls)
stopped_for_good_example =
    stopped_for_good worker_events (shutdown_enters ∷ []) ended_worker asked_again worker_runs refl
      asked_again_runs

joined_runs : group_shutdown (web_stopped ∷ worker_failed ∷ []) ≡ (codes "worker", 5) ∷ []
unfolding group_shutdown
joined_runs = refl
