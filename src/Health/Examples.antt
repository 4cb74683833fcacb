-- ===== src/Health/Examples.antt =====
-- A prober with two checks, of which one has not reported when the timer fires.
use nise_and_go.Common.{
  ◌↔◌, ◌*◌, ℕ, ◌≡◌, refl, inl, true, false, List, [], ◌∷◌, none, some, arith, length, get_elem?,
}
use nise_and_go.Common.Int.{pos}
use nise_and_go.Common.Clock.{second}
use nise_and_go.Common.Text.{codes}
use nise_and_go.Health.{
  with_overall_timeout, new_prober, Check, returned, Prober, Event, reported, timer, probe, Report,
  timed_out, readiness_handler,
}
use nise_and_go.Health.Aggregate.{in_time, probe_lem}
use nise_and_go.Health.Verdict.{report_of, verdict_on, Succeeded}

abbrev two_checks : Prober
two_checks = record {
  checks = codes "database" ∷ codes "cache" ∷ [];
  check_timeout = pos (2 * second);
  overall_timeout = pos (5 * second);
}

options_run :
    new_prober
      (codes "database" ∷ codes "cache" ∷ [])
      (with_overall_timeout (pos 9) ∷ with_overall_timeout (pos (5 * second)) ∷ [])
    ≡ two_checks
unfolding new_prober
options_run = refl

abbrev slow_cache : List Event
slow_cache = reported 0 (returned none (pos 7)) ∷ timer ∷ []

slow_cache_runs :
    probe two_checks slow_cache
    ≡ some (record {
      healthy = false;
      results =
          record { name = codes "database"; healthy = true; error = []; duration = pos 7 }
          ∷ record {
            name = codes "cache";
            healthy = false;
            error = timed_out;
            duration = pos (5 * second);
          }
          ∷ [];
    })
unfolding probe
slow_cache_runs = refl

out_of_order_runs :
    readiness_handler true
      (some two_checks)
      (reported 1 (returned none (pos 1)) ∷ reported 0 (returned none (pos 2)) ∷ [])
    ≡ some (200, codes "{\"status\":\"ok\"}")
unfolding readiness_handler
out_of_order_runs = refl

waiting_runs : probe two_checks [] ≡ none
unfolding probe
waiting_runs = refl

probe_lem_example :
    (report : Report) × (probe two_checks slow_cache ≡ some report)
    × (length report.results ≡ length two_checks.checks)
    × ((i : ℕ) (c : Check)
        → get_elem? two_checks.checks i ≡ some c
        → get_elem? report.results i
          ≡ some (verdict_on two_checks c (report_of i none (in_time slow_cache))))
    × ((report.healthy ≡ true) ↔ (
        (i : ℕ) (c : Check)
        → get_elem? two_checks.checks i ≡ some c
        → Succeeded (report_of i none (in_time slow_cache))))
probe_lem_example = probe_lem two_checks slow_cache (omega arith) (inl refl)
