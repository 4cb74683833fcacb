-- ===== src/Lifecycle/Worker/Stopped.antt =====
-- A worker whose Shutdown has returned nil is stopped for good.
use nise_and_go.Common.{
  subst, ◌≡◌, ◌≢◌, refl, ◌∙◌, Bool, true, false, ◌&&◌, ◌||◌, not, List, [], ◌∷◌, Option, none, some,
  arith,
}
use nise_and_go.Lifecycle.Worker.{
  WorkerState, worker_idle, worker_running, worker_stopped, Phase, not_called, in_loop,
  loop_returned, marked, over, Worker, new_worker, WorkerEvent, worker_step, worker_run, run_enters,
  loop_ends, run_marks, run_closes, shutdown_enters, shutdown_sees_done, shutdown_times_out,
}

-- A Shutdown has returned nil.
abbrev pub has_nil : List Bool → Bool
has_nil [] = false
has_nil (a ∷ answers) = a || has_nil answers

abbrev is_stopped : WorkerState → Bool
is_stopped worker_stopped = true
is_stopped worker_idle = false
is_stopped worker_running = false

abbrev is_running : WorkerState → Bool
is_running worker_running = true
is_running worker_stopped = false
is_running worker_idle = false

-- The states that a phase of Run goes with.
abbrev agrees : Phase → WorkerState → Bool → Bool
agrees not_called s d = not (is_running s) && not d
agrees in_loop s d = is_running s && not d
agrees loop_returned s d = is_running s && not d
agrees marked s d = is_stopped s && not d
agrees over s d = is_stopped s

abbrev Sound : Worker → Type 0
Sound w =
    (agrees w.phase w.state w.done ≡ true)
    × ((not (has_nil w.answers) || is_stopped w.state) ≡ true)

step-Sound : (e : WorkerEvent) (w v : Worker) → worker_step e w ≡ some v → Sound w → Sound v
unfolding worker_step
step-Sound run_enters w v h (a, b) = (ground (arith, h, a, b), ground (arith, h, a, b))
step-Sound loop_ends w v h (a, b) = (ground (arith, h, a, b), ground (arith, h, a, b))
step-Sound run_marks w v h (a, b) = (ground (arith, h, a, b), ground (arith, h, a, b))
step-Sound run_closes w v h (a, b) = (ground (arith, h, a, b), ground (arith, h, a, b))
step-Sound shutdown_enters w v h (a, b) = (ground (arith, h, a, b), ground (arith, h, a, b))
step-Sound shutdown_sees_done w v h (a, b) = (ground (arith, h, a, b), ground (arith, h, a, b))
step-Sound shutdown_times_out w v h (a, b) = (ground (arith, h, a, b), ground (arith, h, a, b))

-- A stopped worker stays so, and its loop is not called.
step-stopped :
    (e : WorkerEvent) (w v : Worker)
    → worker_step e w ≡ some v
    → is_stopped w.state ≡ true
    → (is_stopped v.state ≡ true) × (v.calls ≡ w.calls)
unfolding worker_step
step-stopped run_enters w v h a = (ground (arith, h, a), ground (arith, h, a))
step-stopped loop_ends w v h a = (ground (arith, h, a), ground (arith, h, a))
step-stopped run_marks w v h a = (ground (arith, h, a), ground (arith, h, a))
step-stopped run_closes w v h a = (ground (arith, h, a), ground (arith, h, a))
step-stopped shutdown_enters w v h a = (ground (arith, h, a), ground (arith, h, a))
step-stopped shutdown_sees_done w v h a = (ground (arith, h, a), ground (arith, h, a))
step-stopped shutdown_times_out w v h a = (ground (arith, h, a), ground (arith, h, a))

first_event :
    (o : Option Worker) (events : List WorkerEvent) (v : Worker)
    → elim o [ none ↦ none | some u ↦ worker_run events u ] ≡ some v
    → (u : Worker) × (o ≡ some u) × (worker_run events u ≡ some v)
first_event none events v h = cc
first_event (some u) events v h = (u, refl, h)

run-Sound :
    (events : List WorkerEvent) (w v : Worker) → worker_run events w ≡ some v → Sound w → Sound v
unfolding worker_run
run-Sound [] w v h s = let same : w ≡ v = cc h in subst Sound same s
run-Sound (e ∷ events) w v h s =
    let (u, step, rest) = first_event (worker_step e w) events v h in
    run-Sound events u v rest (step-Sound e w u step s)

run-stopped :
    (events : List WorkerEvent) (w v : Worker)
    → worker_run events w ≡ some v
    → is_stopped w.state ≡ true
    → (is_stopped v.state ≡ true) × (v.calls ≡ w.calls)
unfolding worker_run
run-stopped [] w v h s =
    let same : w ≡ v = cc h in
    subst (λ (x : Worker). (is_stopped x.state ≡ true) × (x.calls ≡ w.calls)) same (s, refl)
run-stopped (e ∷ events) w v h s =
    let (u, step, rest) = first_event (worker_step e w) events v h in
    let (stopped, same) = step-stopped e w u step s in
    let (still, all) = run-stopped events u v rest stopped in (still, all ∙ same)

not_looping : (w : Worker) → Sound w → is_stopped w.state ≡ true → w.phase ≢ in_loop
not_looping w (a, b) s e = absurd (ground (arith, a, s, e))

-- Once a call of `Shutdown` has returned nil, the worker's loop is not running, and it is not called again,
-- whatever happens afterwards: this holds of every interleaving of one call of `Run` with any calls of
-- `Shutdown`, those before `Run` included.
pub stopped_for_good :
    (events more : List WorkerEvent) (w v : Worker)
    → worker_run events new_worker ≡ some w
    → has_nil w.answers ≡ true
    → worker_run more w ≡ some v
    → (w.phase ≢ in_loop) × (v.phase ≢ in_loop) × (v.calls ≡ w.calls)
unfolding new_worker
stopped_for_good events more w v h n m =
    let sound = run-Sound events new_worker w h (refl, refl) in
    let stopped : is_stopped w.state ≡ true = ground (arith, sound.1, n) in
    let (still, same) = run-stopped more w v m stopped in
    (not_looping w sound stopped, not_looping v (run-Sound more w v m sound) still, same)
