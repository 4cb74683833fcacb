-- ===== src/Health/Aggregate.antt =====
-- A report says of every check what it reported before the timer, in the order of registration.
use nise_and_go.Common.{
  ◌↔◌, Bool-cases, ℕ, zero, suc, ◌≤◌, ◌<◌, ◌≡◌, ◌≢◌, refl, ap, ◌∙◌, ◌⊎◌, inl, inr, Bool, true,
  false, List, [], ◌∷◌, Option, none, some, arith, ◌==◌, if◌then◌else◌, length, set, get_elem?,
  replicate, length-set, length-replicate,
}
use nise_and_go.Common.Text.{is_empty, all_of}
use nise_and_go.Health.Verdict.{
  report_of, verdict_on, result_of-verdict_on, Succeeded, Promised, Promised-healthy, get_elem?-lt,
}
use nise_and_go.Health.{
  Check, Ending, Prober, Event, reported, timer, probe_loop, result_of, collect, Report, probe,
  is_healthy,
}

-- The reports before the timer.
abbrev pub in_time : List Event → List (ℕ × Ending)
in_time [] = []
in_time (timer ∷ events) = []
in_time (reported i e ∷ events) = (i, e) ∷ in_time events

abbrev pub timer_fires : List Event → Bool
timer_fires [] = false
timer_fires (timer ∷ events) = true
timer_fires (reported i e ∷ events) = timer_fires events

fill : List (Option Ending) → List (ℕ × Ending) → List (Option Ending)
fill filled [] = filled
fill filled ((i, e) ∷ rs) = fill (set filled i (some e)) rs

loop-fill :
    (remaining : ℕ) (events : List Event) (filled : List (Option Ending))
    → length (in_time events) ≤ remaining
    → (timer_fires events ≡ true) ⊎ (remaining ≤ length (in_time events))
    → probe_loop remaining events filled ≡ some (fill filled (in_time events))
unfolding probe_loop fill
loop-fill zero [] filled h w = refl
loop-fill zero (timer ∷ events) filled h w = refl
loop-fill zero (reported i e ∷ events) filled h w = absurd (omega (arith, h))
loop-fill (suc remaining) [] filled h (inl w) = cc
loop-fill (suc remaining) [] filled h (inr w) = absurd (omega (arith, w))
loop-fill (suc remaining) (timer ∷ events) filled h w = refl
loop-fill (suc remaining) (reported i e ∷ events) filled h (inl w) =
    loop-fill remaining events (set filled i (some e)) (omega (arith, h)) (inl w)
loop-fill (suc remaining) (reported i e ∷ events) filled h (inr w) =
    loop-fill remaining events (set filled i (some e)) (omega (arith, h)) (inr (omega (arith, w)))

get-set :
    (l : List (Option Ending)) (i j : ℕ) (v : Option Ending)
    → j < length l
    → get_elem? (set l i v) j ≡ (if i == j then some v else get_elem? l j)
get-set [] i j v h = absurd (omega (arith, h))
get-set (x ∷ l) zero zero v h = refl
get-set (x ∷ l) zero (suc j) v h = ground arith
get-set (x ∷ l) (suc i) zero v h = ground arith
get-set (x ∷ l) (suc i) (suc j) v h = ground (arith, get-set l i j v (omega (arith, h)))

fill-get :
    (rs : List (ℕ × Ending)) (filled : List (Option Ending)) (j : ℕ) (b : Option Ending)
    → j < length filled
    → get_elem? filled j ≡ some b
    → get_elem? (fill filled rs) j ≡ some (report_of j b rs)
unfolding fill
fill-get [] filled j b h g = g
fill-get ((i, e) ∷ rs) filled j b h g =
    fill-get rs (set filled i (some e)) j (if i == j then some e else b)
      (omega (arith, h, length-set filled i (some e)))
      (ground (arith, get-set filled i j (some e) h, g))

fill-length :
    (rs : List (ℕ × Ending)) (filled : List (Option Ending))
    → length (fill filled rs) ≡ length filled
unfolding fill
fill-length [] filled = refl
fill-length ((i, e) ∷ rs) filled =
    fill-length rs (set filled i (some e)) ∙ length-set filled i (some e)

collect-get :
    (p : Prober) (checks : List Check) (filled : List (Option Ending)) (i : ℕ) (c : Check)
    (f : Option Ending)
    → get_elem? checks i ≡ some c
    → get_elem? filled i ≡ some f
    → get_elem? (collect p checks filled) i ≡ some (result_of p c f)
unfolding collect
collect-get p [] filled i c f h k = cc
collect-get p (x ∷ checks) [] i c f h k = cc
collect-get p (x ∷ checks) (y ∷ filled) zero c f h k = cc (h, k)
collect-get p (x ∷ checks) (y ∷ filled) (suc i) c f h k = collect-get p checks filled i c f h k

collect-length :
    (p : Prober) (checks : List Check) (filled : List (Option Ending))
    → length filled ≡ length checks
    → length (collect p checks filled) ≡ length checks
unfolding collect
collect-length p [] filled h = refl
collect-length p (x ∷ checks) [] h = absurd (omega (arith, h))
collect-length p (x ∷ checks) (y ∷ filled) h =
    ap suc (collect-length p checks filled (omega (arith, h)))

abbrev nothing : Option Ending
nothing = none

get-replicate : (n i : ℕ) → i < n → get_elem? (replicate n nothing) i ≡ some nothing
get-replicate zero i h = absurd (omega (arith, h))
get-replicate (suc n) zero h = refl
get-replicate (suc n) (suc i) h = get-replicate n i (omega (arith, h))

abbrev report_on : Prober → List (Option Ending) → Report
report_on p filled =
    let results = collect p p.checks filled in
    record { healthy = all_of is_healthy results; results = results }

report_on-Promised :
    (p : Prober) (rs : List (ℕ × Ending))
    → Promised p rs (report_on p (fill (replicate (length p.checks) nothing) rs))
report_on-Promised p rs = (
  collect-length p p.checks (fill (replicate (length p.checks) nothing) rs) (
      fill-length rs (replicate (length p.checks) nothing)
      ∙ length-replicate (length p.checks) nothing),
  λ i c h.
      let lt : i < length p.checks = get_elem?-lt p.checks i c h in
      let at =
        collect-get p p.checks (fill (replicate (length p.checks) nothing) rs) i c
          (report_of i none rs) h
          (fill-get rs (replicate (length p.checks) nothing) i none
            (omega (arith, lt, length-replicate (length p.checks) nothing))
            (get-replicate (length p.checks) i lt)) in
      at ∙ ap some (result_of-verdict_on p c (report_of i none rs)),
  refl,
)

get-none : (l : List Check) (i : ℕ) (c : Check) → is_empty l ≡ true → get_elem? l i ≢ some c
get-none [] i c e q = cc
get-none (x ∷ l) i c e q = cc

length-none : (l : List Check) → is_empty l ≡ true → 0 ≡ length l
length-none [] e = refl
length-none (x ∷ l) e = cc

abbrev no_checks : Report
no_checks = record { healthy = true; results = [] }

no_checks-Promised :
    (p : Prober) (rs : List (ℕ × Ending)) → is_empty p.checks ≡ true → Promised p rs no_checks
unfolding all_of
no_checks-Promised p rs e =
    (length-none p.checks e, λ i c h. absurd (get-none p.checks i c e h), refl)

-- Once the timer fires or all checks have reported, `Probe` returns, with one result for every check in
-- the order of registration: healthy if the check returned no error before the timer, with the error if
-- it returned one, and timed out if its own time or the timer came first. The report is healthy exactly
-- if every check returned no error in time. No check reports more than once, so there are at most as many
-- reports as checks.
pub probe_lem :
    (p : Prober) (events : List Event)
    → length (in_time events) ≤ length p.checks
    → (timer_fires events ≡ true) ⊎ (length p.checks ≤ length (in_time events))
    → (report : Report) × (probe p events ≡ some report)
      × (length report.results ≡ length p.checks)
      × ((i : ℕ) (c : Check)
          → get_elem? p.checks i ≡ some c
          → get_elem? report.results i ≡ some (verdict_on p c (report_of i none (in_time events))))
      × ((report.healthy ≡ true) ↔ (
          (i : ℕ) (c : Check)
          → get_elem? p.checks i ≡ some c
          → Succeeded (report_of i none (in_time events))))
unfolding probe
probe_lem p events h w = elim (Bool-cases (is_empty p.checks)) [
  | inl e ↦
      let promised = no_checks-Promised p (in_time events) e in
      (
        no_checks,
        rw e refl,
        promised.0,
        promised.1,
        Promised-healthy p (in_time events) no_checks promised,
      )
  | inr e ↦
      let filled = fill (replicate (length p.checks) nothing) (in_time events) in
      let promised = report_on-Promised p (in_time events) in
      (
        report_on p filled,
        rw (e, loop-fill (length p.checks) events (replicate (length p.checks) nothing) h w) refl,
        promised.0,
        promised.1,
        Promised-healthy p (in_time events) (report_on p filled) promised,
      )
]
