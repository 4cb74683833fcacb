-- ===== src/Reservation/Examples.antt =====
-- Tests of the reservation feature, and its theorems at concrete inputs.
use nise_and_go.Common.{subst, ℕ, suc, ◌*◌, ◌≡◌, refl, inl, true, false, [], ◌∷◌, some, none}
use nise_and_go.Common.Int.{pos, ◌+ℤ◌}
use nise_and_go.Common.Text.{Bytes, codes, str_eq, All}
use nise_and_go.Common.Clock.{add_time, sub_time, hour}
use nise_and_go.Common.Result.{ok, err, is_ok}
use nise_and_go.Reservation.Window.{conflict}
use nise_and_go.Reservation.Store.{
  Uuid, Row, NewRow, conflicts, any_row, fresh_row, set_checked_out, set_no_show, is_overdue,
}
use nise_and_go.Reservation.Effects.{schedule_confirmation_and_reminder, Env, Db, to_reservation}
use nise_and_go.Reservation.Commands.{
  Actor, Request, create, create_checks, check_out, sweep_no_shows, work_no_show_check, get,
}
use nise_and_go.Reservation.Schema.{IsConsistent, nothing_booked}
use nise_and_go.Reservation.Reach.{Steps, creates, checks_out, more, done, steps-IsConsistent}
use nise_and_go.Reservation.History.{In, Became, steps_history}
use nise_and_go.Reservation.Outcome.{collected_once}
use nise_and_go.Reservation.Booking.{create_conflict, create-retired_at, retire}
use nise_and_go.Reservation.Sweep.{sweep_lem, work_marks_all}

abbrev org : Bytes
org = codes "lab"

abbrev microscope : Bytes
microscope = codes "scope"

-- The audit trail is a count of its records.
abbrev env : Uuid → Env ℕ
env id = record {
  options = record { audit = some (λ event f. some (suc f)); jobs = none; notify = none };
  parse_uuid = λ s. some s;
  uuid_string = λ u. u;
  resources = record { id = microscope; org = org; retired_at = none } ∷ [];
  now = pos (100 * hour);
  db_now = pos (100 * hour);
  fresh = id;
}

abbrev empty : Db ℕ
empty = record { rows = []; effects = 0 }

abbrev request : Request
request = record {
  resource_id = microscope;
  holder_id = codes "ada";
  starts_at = pos (100 * hour);
  ends_at = pos (101 * hour);
  note = codes " cells ";
}

abbrev ada : Actor
ada = record { user_id = codes "ada"; may_manage_others = false }

abbrev new : NewRow
new = record {
  resource = microscope;
  holder = codes "ada";
  lower = pos (100 * hour);
  upper = pos (101 * hour);
  note = codes "cells";
}

abbrev first_row : Row
first_row = fresh_row org (codes "r1") (pos (100 * hour)) new

abbrev one : Db ℕ
one = record { rows = first_row ∷ []; effects = 1 }

abbrev two : Db ℕ
two = record { rows = set_checked_out (pos (100 * hour)) first_row ∷ []; effects = 2 }

created :
    create (env (codes "r1")) org org request empty ≡ (ok (to_reservation (env []) first_row), one)
unfolding create sub_time ◌+ℤ◌ str_eq schedule_confirmation_and_reminder add_time
created = refl

taken_out :
    check_out (env []) org (codes "r1") ada one
    ≡ (ok (to_reservation (env []) (set_checked_out (pos (100 * hour)) first_row)), two)
unfolding check_out str_eq
taken_out = refl

request_checked : create_checks (env (codes "r2")) request ≡ ok new
unfolding create_checks sub_time
request_checked = refl

abbrev two_commands :
    Steps empty
      (check_out
        (env [])
        org
        (codes "r1")
        ada
        (create (env (codes "r1")) org org request empty).1).1
two_commands =
    more (creates (env (codes "r1")) org org request)
      (more (checks_out (env []) org (codes "r1") ada) done)

steps-IsConsistent_example :
    IsConsistent
      (check_out
        (env [])
        org
        (codes "r1")
        ada
        (create (env (codes "r1")) org org request empty).1).1.rows
steps-IsConsistent_example = steps-IsConsistent two_commands nothing_booked

abbrev collects : Steps one (check_out (env []) org (codes "r1") ada one).1
collects = more (checks_out (env []) org (codes "r1") ada) done

steps_history_example :
    (s : Row) × In s (check_out (env []) org (codes "r1") ada one).1.rows × Became first_row s
steps_history_example = steps_history first_row collects (inl refl)

one_IsConsistent : IsConsistent one.rows
one_IsConsistent =
    subst (λ out. IsConsistent out.1.rows) created
      (steps-IsConsistent (more (creates (env (codes "r1")) org org request) done) nothing_booked)

first_taken_out :
    (check_out (env []) org (codes "r1") ada one).0
    ≡ ok (to_reservation (env []) (set_checked_out (pos (100 * hour)) first_row))
first_taken_out = rw taken_out refl

collected_once_example :
    is_ok
      (check_out (env []) org (codes "r1") ada (check_out (env []) org (codes "r1") ada one).1).0
    ≡ false
collected_once_example =
    collected_once (env []) (env []) org org (codes "r1") (codes "r1") (codes "r1") ada ada one
      (check_out (env []) org (codes "r1") ada one).1
      {booking = to_reservation (env []) (set_checked_out (pos (100 * hour)) first_row)}
      one_IsConsistent refl first_taken_out done refl

clash : conflicts (fresh_row org (codes "r2") (pos (100 * hour)) new) first_row ≡ true
unfolding conflicts str_eq
clash = refl

unused_id : any_row (λ s. str_eq s.id (codes "r2")) one.rows ≡ false
unfolding any_row str_eq
unused_id = refl

create_conflict_example : create (env (codes "r2")) org org request one ≡ (err conflict, one)
create_conflict_example =
    create_conflict (env (codes "r2")) org org request one first_row {n = new} request_checked
      unused_id (inl refl) clash

create-retired_at_example :
    create
      (record (env (codes "r1")) {
        resources = retire (pos 0) (record { id = microscope; org = org; retired_at = none }) ∷ [];
      })
      org
      org
      request
      empty
    ≡ create (env (codes "r1")) org org request empty
create-retired_at_example = create-retired_at (env (codes "r1")) (pos 0) org org request empty

abbrev late : Row
late = fresh_row org (codes "r0") (pos hour) (record {
  resource = microscope;
  holder = codes "bob";
  lower = pos (90 * hour);
  upper = pos (91 * hour);
  note = [];
})

abbrev both : Db ℕ
both = record { rows = late ∷ first_row ∷ []; effects = 0 }

swept_ok :
    (sweep_no_shows (env []) org (pos (95 * hour)) both).0
    ≡ ok (to_reservation (env []) (set_no_show (pos (100 * hour)) late) ∷ [])
unfolding sweep_no_shows str_eq
swept_ok = refl

sweep_lem_example :
    All
      (λ r. is_overdue org (pos (95 * hour)) r ≡ false)
      (sweep_no_shows (env []) org (pos (95 * hour)) both).1.rows
sweep_lem_example =
    (sweep_lem (env []) org (pos (95 * hour)) both
      {swept = to_reservation (env []) (set_no_show (pos (100 * hour)) late) ∷ []} swept_ok).0

read_first : get (env []) org (codes "r1") both ≡ ok (to_reservation (env []) first_row)
unfolding get str_eq
read_first = refl

worked : (work_no_show_check (env []) org (codes "r1") both).0 ≡ ok tt
unfolding work_no_show_check str_eq
worked = refl

late_overdue : is_overdue org (pos (101 * hour)) late ≡ true
unfolding str_eq
late_overdue = refl

work_marks_all_example :
    In
      (set_no_show (pos (100 * hour)) late)
      (work_no_show_check (env []) org (codes "r1") both).1.rows
work_marks_all_example =
    work_marks_all (env []) org (codes "r1") both late {booking = to_reservation (env []) first_row}
      read_first refl worked (inl refl) late_overdue
