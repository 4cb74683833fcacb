-- ===== src/Health.antt =====
-- runtime/health: check.go and handler.go; a gate is its boolean. Checks run concurrently; what `Probe`
-- sees of them is the sequence of events at its select, reports of checks and the overall timer.
pub mod Verdict
pub mod Aggregate
pub mod Examples
use nise_and_go.Common.{
  ◌*◌, ℕ, zero, suc, ◌+◌, Bool, true, false, ◌&&◌, not, List, [], ◌∷◌, ◌++◌, Option, none, some,
  if◌then◌else◌, length, set, replicate,
}
use nise_and_go.Common.Int.{pos}
use nise_and_go.Common.Clock.{Duration, second}
use nise_and_go.Common.Text.{Bytes, codes, is_empty, all_of}

abbrev pub default_check_timeout : Duration
default_check_timeout = pos (2 * second)

abbrev pub default_overall_timeout : Duration
default_overall_timeout = pos (5 * second)

pub record Result : Type 0 where
  pub name : Bytes
  pub healthy : Bool
  pub error : Bytes
  pub duration : Duration

pub record Report : Type 0 where
  pub healthy : Bool
  pub results : List Result

-- A check is its name here; its function is known by how it ends: it returns after some time, with the text
-- of an error or none, or its own timeout is first.
abbrev pub Check : Type 0
Check = Bytes

pub data Ending : Type 0 where
  returned : Option Bytes → Duration → Ending
  expired : Ending

pub record Prober : Type 0 where
  pub checks : List Check
  pub check_timeout : Duration
  pub overall_timeout : Duration

pub data ProberOption : Type 0 where
  with_check_timeout with_overall_timeout : Duration → ProberOption

unfoldable pub apply_prober_options : List ProberOption → Prober → Prober
apply_prober_options [] p = p
apply_prober_options (with_check_timeout d ∷ options) p =
    apply_prober_options options (record p { check_timeout = d })
apply_prober_options (with_overall_timeout d ∷ options) p =
    apply_prober_options options (record p { overall_timeout = d })

unfoldable pub new_prober : List Check → List ProberOption → Prober
unfolding apply_prober_options
new_prober checks options = apply_prober_options options (record {
  checks = checks;
  check_timeout = default_check_timeout;
  overall_timeout = default_overall_timeout;
})

abbrev pub timed_out : Bytes
timed_out = codes "check timed out"

unfoldable pub run_check : Prober → Check → Ending → Result
run_check p c (returned (some e) d) = record { name = c; healthy = false; error = e; duration = d }
run_check p c (returned none d) = record { name = c; healthy = true; error = []; duration = d }
run_check p c expired = record {
  name = c;
  healthy = false;
  error = timed_out;
  duration = p.check_timeout;
}

-- What the select receives: the report of the check of an index, or the overall timer.
pub data Event : Type 0 where
  reported : ℕ → Ending → Event
  timer : Event

-- The loop; an index is filled once its outcome is there. `none` is a loop that still waits.
unfoldable pub probe_loop : ℕ → List Event → List (Option Ending) → Option (List (Option Ending))
probe_loop zero events filled = some filled
probe_loop (suc remaining) [] filled = none
probe_loop (suc remaining) (timer ∷ events) filled = some filled
probe_loop (suc remaining) (reported i e ∷ events) filled =
    probe_loop remaining events (set filled i (some e))

unfoldable pub result_of : Prober → Check → Option Ending → Result
unfolding run_check
result_of p c none = record {
  name = c;
  healthy = false;
  error = timed_out;
  duration = p.overall_timeout;
}
result_of p c (some e) = run_check p c e

-- The results in the order of registration.
unfoldable pub collect : Prober → List Check → List (Option Ending) → List Result
unfolding result_of
collect p [] filled = []
collect p (c ∷ checks) [] = []
collect p (c ∷ checks) (f ∷ filled) = result_of p c f ∷ collect p checks filled

abbrev pub is_healthy : Result → Bool
is_healthy r = r.healthy

unfoldable pub probe : Prober → List Event → Option Report
unfolding probe_loop collect all_of
probe p events =
    if is_empty p.checks
    then some (record { healthy = true; results = [] })
    else elim (probe_loop (length p.checks) events (replicate (length p.checks) none)) [
      | none ↦ none
      | some filled ↦
          let results = collect p p.checks filled in
          some (record { healthy = all_of is_healthy results; results = results })
    ]

-- A response: its status and its body.
abbrev pub Response : Type 0
Response = ℕ × Bytes

unfoldable pub write_probe_response : Bool → Response
write_probe_response healthy =
    if healthy
    then (200, codes "{\"status\":\"ok\"}")
    else (503, codes "{\"status\":\"unavailable\"}")

-- The startup and the liveness handler.
unfoldable pub gate_handler : Bool → Response
unfolding write_probe_response
gate_handler ready = write_probe_response ready

-- The readiness handler; without a prober (`none`) the gate decides. `none` of the result waits.
unfoldable pub readiness_handler : Bool → Option Prober → List Event → Option Response
unfolding probe write_probe_response
readiness_handler ready none events = some (write_probe_response ready)
readiness_handler ready (some p) events =
    if not ready then some (write_probe_response false) else elim (probe p events) [
      | none ↦ none
      | some report ↦ some (write_probe_response report.healthy)
    ]

-- The detailed view: the status, and the report that is encoded.
pub record ReadinessReport : Type 0 where
  pub gate_ready : Bool
  pub healthy : Bool
  pub checks : List Result

unfoldable pub readiness_report_handler :
    Bool → Option Prober → List Event → Option (ℕ × ReadinessReport)
unfolding probe
readiness_report_handler ready none events =
    some (if ready then 200 else 503, record { gate_ready = ready; healthy = ready; checks = [] })
readiness_report_handler ready (some p) events = elim (probe p events) [
  | none ↦ none
  | some report ↦
      let healthy = ready && report.healthy in
      some (
        if healthy then 200 else 503,
        record { gate_ready = ready; healthy = healthy; checks = report.results },
      )
]
