-- ===== src/Reservation/Commands.antt =====
-- reservation.go: the commands. Each runs in one transaction, which keeps its changes only if nothing
-- in it failed.
use nise_and_go.Common.{Bool, ◌||◌, not, List, [], ◌∷◌, Option, none, some, map, ltb, if◌then◌else◌}
use nise_and_go.Common.Text.{Bytes, str_eq, is_empty}
use nise_and_go.Common.Utf8.{rune_count}
use nise_and_go.Common.Space.{trim_space}
use nise_and_go.Common.Result.{Result, ok, err, ◌>>=◌, ◌>>◌, fail_if, map_err}
use nise_and_go.Common.Clock.{Time, before}
use nise_and_go.Reservation.Window.{
  State, booked, checked_out, state_eq, ReservationError, not_found, invalid, conflict, wrong_state,
  not_started, not_holder, resource_unavailable, failed, validate_window, max_note_bytes,
  max_photo_key_bytes,
}
use nise_and_go.Reservation.Store.{
  Uuid, Row, NewRow, StoreError, overlap, unbookable, other, create_reservation, get_reservation,
  check_out_reservation, return_reservation, cancel_reservation, mark_no_shows,
}
use nise_and_go.Reservation.Effects.{
  Reservation, Action, action_created, action_checked_out, action_returned, action_cancelled,
  action_no_show, Env, Db, of_option, to_reservation, record_and_enqueue,
  schedule_confirmation_and_reminder, notify_no_show,
}

-- `WithinTenant`: an error rolls the transaction back.
abbrev pub within :
    {F A : Type 0}
    → (Db F → Result ReservationError (A × Db F))
    → Db F
    → Result ReservationError A × Db F
within body db = elim (body db) [ err e ↦ (err e, db) | ok (a, after) ↦ (ok a, after) ]

pub record Actor : Type 0 where
  pub user_id : Bytes
  pub may_manage_others : Bool

abbrev pub may_act : Actor → Bytes → Bool
may_act a holder_id = a.may_manage_others || str_eq a.user_id holder_id

pub record Request : Type 0 where
  pub resource_id : Bytes
  pub holder_id : Bytes
  pub starts_at : Time
  pub ends_at : Time
  pub note : Bytes

abbrev store_error : StoreError → ReservationError
store_error overlap = conflict
store_error unbookable = resource_unavailable
store_error other = failed

module _ {F : Type 0} where
  -- The checks of `Create` before its transaction.
  unfoldable pub create_checks : Env F → Request → Result ReservationError NewRow
  unfolding validate_window rune_count trim_space
  create_checks e q = do
    resource ← of_option resource_unavailable (e.parse_uuid q.resource_id)
    holder ← of_option invalid (e.parse_uuid q.holder_id)
    validate_window q.starts_at q.ends_at
    let note = trim_space q.note
    fail_if (ltb max_note_bytes (rune_count note)) invalid
    ok (record {
      resource = resource;
      holder = holder;
      lower = q.starts_at;
      upper = q.ends_at;
      note = note;
    })

  unfoldable pub create_body :
      Env F → Uuid → Bytes → Request → NewRow → Db F → Result ReservationError (Reservation × Db F)
  unfolding create_reservation
  create_body e tenant org_id q n db = do
    (row, rows) ←
        map_err store_error (create_reservation e.resources tenant e.fresh e.db_now n db.rows)
    let booking = to_reservation e row
    f ← record_and_enqueue e action_created q.holder_id booking db.effects
    g ← schedule_confirmation_and_reminder e org_id booking f
    ok (booking, record { rows = rows; effects = g })

  unfoldable pub create :
      Env F → Uuid → Bytes → Request → Db F → Result ReservationError Reservation × Db F
  unfolding create_checks create_body
  create e tenant org_id q db = elim (create_checks e q) [
    | err x ↦ (err x, db)
    | ok n ↦ within (create_body e tenant org_id q n) db
  ]

  -- The transaction of `transition`; `act` gives `none` for pgx.ErrNoRows.
  unfoldable pub transition_body :
      Env F
      → Uuid
      → Uuid
      → Actor
      → State
      → Action
      → (Row → List Row → Result ReservationError (Option (Row × List Row)))
      → Db F
      → Result ReservationError (Reservation × Db F)
  unfolding get_reservation
  transition_body e tenant id actor required action act db = do
    current ← of_option not_found (get_reservation tenant id db.rows)
    fail_if (not (may_act actor (e.uuid_string current.holder))) not_holder
    fail_if (not (state_eq current.state required)) wrong_state
    found ← act current db.rows
    (updated, rows) ← of_option wrong_state found
    let booking = to_reservation e updated
    f ← record_and_enqueue e action actor.user_id booking db.effects
    ok (booking, record { rows = rows; effects = f })

  unfoldable pub transition :
      Env F
      → Uuid
      → Bytes
      → Actor
      → State
      → Action
      → (Row → List Row → Result ReservationError (Option (Row × List Row)))
      → Db F
      → Result ReservationError Reservation × Db F
  unfolding transition_body
  transition e tenant reservation_id actor required action act db =
      elim (e.parse_uuid reservation_id) [
        | none ↦ (err not_found, db)
        | some id ↦ within (transition_body e tenant id actor required action act) db
      ]

  -- What the three commands do in `transition`.
  unfoldable pub check_out_act :
      Env F → Uuid → Row → List Row → Result ReservationError (Option (Row × List Row))
  unfolding check_out_reservation
  check_out_act e tenant current rows = do
    fail_if (before e.now current.lower) not_started
    ok (check_out_reservation tenant current.id e.db_now rows)

  unfoldable pub return_act :
      Env F
      → Uuid
      → Bytes
      → Option Bytes
      → Row
      → List Row
      → Result ReservationError (Option (Row × List Row))
  unfolding return_reservation
  return_act e tenant note photo current rows =
      ok (return_reservation tenant current.id e.db_now note photo rows)

  unfoldable pub cancel_act :
      Env F → Uuid → Row → List Row → Result ReservationError (Option (Row × List Row))
  unfolding cancel_reservation
  cancel_act e tenant current rows = ok (cancel_reservation tenant current.id e.db_now rows)

  unfoldable pub check_out :
      Env F → Uuid → Bytes → Actor → Db F → Result ReservationError Reservation × Db F
  unfolding transition check_out_act
  check_out e tenant reservation_id actor =
      transition e tenant reservation_id actor booked action_checked_out (check_out_act e tenant)

  -- `Return`.
  unfoldable pub give_back :
      Env F
      → Uuid
      → Bytes
      → Actor
      → Bytes
      → Bytes
      → Db F
      → Result ReservationError Reservation × Db F
  unfolding transition return_act rune_count trim_space
  give_back e tenant reservation_id actor note photo_key db =
      let trimmed = trim_space note in
      if ltb max_note_bytes (rune_count trimmed)
      then (err invalid, db)
      else if ltb max_photo_key_bytes (rune_count photo_key)
      then (err invalid, db)
      else let photo = if is_empty photo_key then none else some photo_key in
        transition e tenant reservation_id actor checked_out action_returned
          (return_act e tenant trimmed photo) db

  unfoldable pub cancel :
      Env F → Uuid → Bytes → Actor → Db F → Result ReservationError Reservation × Db F
  unfolding transition cancel_act
  cancel e tenant reservation_id actor =
      transition e tenant reservation_id actor booked action_cancelled (cancel_act e tenant)

  -- The loop of `SweepNoShows` over the rows it marked.
  unfoldable pub sweep_effects : Env F → List Row → F → Result ReservationError F
  sweep_effects e [] f = ok f
  sweep_effects e (r ∷ rs) f = do
    f1 ← record_and_enqueue e action_no_show [] (to_reservation e r) f
    f2 ← notify_no_show e (to_reservation e r) f1
    sweep_effects e rs f2

  unfoldable pub sweep_body :
      Env F → Uuid → Time → Db F → Result ReservationError (List Reservation × Db F)
  unfolding mark_no_shows sweep_effects
  sweep_body e tenant cutoff db = do
    let (swept, rows) = mark_no_shows tenant cutoff e.db_now db.rows
    f ← sweep_effects e swept db.effects
    ok (map (to_reservation e) swept, record { rows = rows; effects = f })

  unfoldable pub sweep_no_shows :
      Env F → Uuid → Time → Db F → Result ReservationError (List Reservation) × Db F
  unfolding sweep_body
  sweep_no_shows e tenant cutoff = within (sweep_body e tenant cutoff)

  -- `Get`.
  unfoldable pub get : Env F → Uuid → Bytes → Db F → Result ReservationError Reservation
  unfolding get_reservation
  get e tenant reservation_id db = do
    id ← of_option not_found (e.parse_uuid reservation_id)
    row ← of_option not_found (get_reservation tenant id db.rows)
    ok (to_reservation e row)

  -- `noShowCheckWorker.Work`
  unfoldable pub work_no_show_check :
      Env F → Uuid → Bytes → Db F → Result ReservationError (Unit {0}) × Db F
  unfolding get sweep_no_shows
  work_no_show_check e tenant reservation_id db = elim (get e tenant reservation_id db) [
    | err x ↦ elim x [ not_found ↦ (ok tt, db) | y ↦ (err y, db) ]
    | ok booking ↦
        if not (state_eq booking.state booked)
        then (ok tt, db)
        else let (outcome, after) = sweep_no_shows e tenant booking.ends_at db in
          elim outcome [ err x ↦ (err x, after) | ok swept ↦ (ok tt, after) ]
  ]
