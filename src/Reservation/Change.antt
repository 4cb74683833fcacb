-- ===== src/Reservation/Change.antt =====
-- What a command of reservation.go does to the table: nothing, or one statement that the table
-- accepts.
use nise_and_go.Common.{
  ◌≡◌, subst, ap, ◌∙◌, inl, inr, true, List, Option, none, some, arith, ltb, if◌then◌else◌,
  Bool-cases, Option-cases,
}
use nise_and_go.Common.Text.{Bytes, is_empty}
use nise_and_go.Common.Utf8.{rune_count}
use nise_and_go.Common.Space.{trim_space}
use nise_and_go.Common.Clock.{Time}
use nise_and_go.Common.Result.{Result, ok, Result-cases}
use nise_and_go.Reservation.Window.{
  State, booked, checked_out, state_eq, ReservationError, max_note_bytes, max_photo_key_bytes,
}
use nise_and_go.Reservation.Store.{
  Uuid, Row, NewRow, Resource, check_out_reservation, return_reservation, cancel_reservation,
  mark_no_shows, create_reservation, get_reservation,
}
use nise_and_go.Reservation.Effects.{
  Env, Db, Reservation, action_checked_out, action_returned, action_cancelled, Action, of_option,
}
use nise_and_go.Reservation.Commands.{
  Actor, Request, within, transition, check_out_act, return_act, cancel_act, transition_body,
  create_body, create_checks, sweep_body, create, check_out, give_back, cancel, sweep_no_shows, get,
  work_no_show_check,
}

-- Of a transaction, whatever holds of the table before and of what the body leaves holds after.
pub within_keeps :
    {F A : Type 0} (P : List Row → Type 0) (body : Db F → Result ReservationError (A × Db F))
    (db : Db F)
    → P db.rows
    → ((a : A) (after : Db F) → body db ≡ ok (a, after) → P after.rows)
    → P (within body db).1.rows
within_keeps P body db h k = elim (Result-cases (body db)) [
  | inl ((a, after), e) ↦ rw (e, within) (k a after e)
  | inr (x, e) ↦ rw (e, within) h
]

of_option_eq :
    {A : Type 0} (e : ReservationError) (o : Option A) {a : A} → of_option e o ≡ ok a → o ≡ some a
of_option_eq e none h = cc
of_option_eq e (some b) h = cc

-- The table before and after.
pub data Change : List Row → List Row → Type 0 where
  unchanged : {rows : List Row} → Change rows rows
  inserted :
      {rows after : List Row} (resources : List Resource) (tenant id : Uuid) (t : Time) (n : NewRow)
      (r : Row)
      → create_reservation resources tenant id t n rows ≡ ok (r, after)
      → Change rows after
  collected :
      {rows after : List Row} (tenant id : Uuid) (t : Time) (r : Row)
      → check_out_reservation tenant id t rows ≡ some (r, after)
      → Change rows after
  brought_back :
      {rows after : List Row} (tenant id : Uuid) (t : Time) (note : Bytes) (photo : Option Bytes)
      (r : Row)
      → return_reservation tenant id t note photo rows ≡ some (r, after)
      → Change rows after
  given_up :
      {rows after : List Row} (tenant id : Uuid) (t : Time) (r : Row)
      → cancel_reservation tenant id t rows ≡ some (r, after)
      → Change rows after
  swept :
      {rows : List Row} (tenant : Uuid) (cutoff t : Time)
      → Change rows (mark_no_shows tenant cutoff t rows).1

module _ {F : Type 0} where
  pub transition_act :
      (e : Env F) (tenant id : Uuid) (actor : Actor) (required : State) (action : Action)
      (act : Row → List Row → Result ReservationError (Option (Row × List Row))) (db : Db F)
      (a : Reservation) (after : Db F)
      → transition_body e tenant id actor required action act db ≡ ok (a, after)
      → (current : Row) × (updated : Row) × (act current db.rows ≡ ok (some (updated, after.rows)))
        × (get_reservation tenant id db.rows ≡ some current)
        × (state_eq current.state required ≡ true)
  unfolding transition_body
  transition_act e tenant id actor required action act db a after steps =
      elim (Option-cases (get_reservation tenant id db.rows)) [
        | inl q ↦ absurd (ground (arith, q, steps))
        | inr (current, q) ↦ elim (Result-cases (act current db.rows)) [
          | inr (x, acted) ↦ absurd (ground (arith, q, acted, steps))
          | inl (none, acted) ↦ absurd (ground (arith, q, acted, steps))
          | inl (some (updated, rows), acted) ↦
              let same : rows ≡ after.rows = ground (arith, q, acted, steps) in
              (
                current,
                updated,
                acted ∙ ap (λ rows. ok (some (updated, rows))) same,
                q,
                ground (arith, q, steps),
              )
        ]
      ]

  -- Of a transition, whatever holds of the table before and of what its statement leaves.
  pub transition_keeps :
      (P : List Row → Type 0) (e : Env F) (tenant : Uuid) (reservation_id : Bytes) (actor : Actor)
      (required : State) (action : Action)
      (act : Row → List Row → Result ReservationError (Option (Row × List Row))) (db : Db F)
      → P db.rows
      → ((current updated : Row) (rows : List Row)
          → act current db.rows ≡ ok (some (updated, rows))
          → P rows)
      → P (transition e tenant reservation_id actor required action act db).1.rows
  unfolding transition
  transition_keeps P e tenant reservation_id actor required action act db h k =
      elim (Option-cases (e.parse_uuid reservation_id)) [
        | inl q ↦ rw (q, transition) h
        | inr (id, q) ↦
            rw (q, transition)
              (within_keeps P (transition_body e tenant id actor required action act) db h
                (λ a after steps.
                  let (current, updated, acted, _, _) =
                    transition_act e tenant id actor required action act db a after steps in
                  k current updated after.rows acted))
      ]

  transition-Change :
      (e : Env F) (tenant : Uuid) (reservation_id : Bytes) (actor : Actor) (required : State)
      (action : Action) (act : Row → List Row → Result ReservationError (Option (Row × List Row)))
      (db : Db F)
      → ((current updated : Row) (rows : List Row)
          → act current db.rows ≡ ok (some (updated, rows))
          → Change db.rows rows)
      → Change db.rows (transition e tenant reservation_id actor required action act db).1.rows
  transition-Change e tenant reservation_id actor required action act db k =
      transition_keeps (Change db.rows) e tenant reservation_id actor required action act db
        unchanged k

  pub check_out-Change :
      (e : Env F) (tenant : Uuid) (reservation_id : Bytes) (actor : Actor) (db : Db F)
      → Change db.rows (check_out e tenant reservation_id actor db).1.rows
  unfolding check_out check_out_act
  check_out-Change e tenant reservation_id actor db =
      transition-Change e tenant reservation_id actor booked action_checked_out
        (check_out_act e tenant) db
        (λ current updated rows h. collected tenant current.id e.db_now updated (ground (arith, h)))

  pub give_back-Change :
      (e : Env F) (tenant : Uuid) (reservation_id : Bytes) (actor : Actor) (note photo_key : Bytes)
      (db : Db F)
      → Change db.rows (give_back e tenant reservation_id actor note photo_key db).1.rows
  unfolding give_back return_act
  give_back-Change e tenant reservation_id actor note photo_key db =
      let trimmed = trim_space note in
      let photo = if is_empty photo_key then none else some photo_key in
      elim (Bool-cases (ltb max_note_bytes (rune_count trimmed))) [
        | inl q ↦ rw (q, give_back) unchanged
        | inr q ↦ elim (Bool-cases (ltb max_photo_key_bytes (rune_count photo_key))) [
          | inl p ↦ rw (q, p, give_back) unchanged
          | inr p ↦
              rw (q, p, give_back)
                (transition-Change e tenant reservation_id actor checked_out action_returned
                  (return_act e tenant trimmed photo) db
                  (λ current updated rows h.
                    brought_back tenant current.id e.db_now trimmed photo updated
                      (ground (arith, h))))
        ]
      ]

  pub cancel-Change :
      (e : Env F) (tenant : Uuid) (reservation_id : Bytes) (actor : Actor) (db : Db F)
      → Change db.rows (cancel e tenant reservation_id actor db).1.rows
  unfolding cancel cancel_act
  cancel-Change e tenant reservation_id actor db =
      transition-Change e tenant reservation_id actor booked action_cancelled (cancel_act e tenant)
        db
        (λ current updated rows h. given_up tenant current.id e.db_now updated (ground (arith, h)))

  create_body-rows :
      (e : Env F) (tenant : Uuid) (org_id : Bytes) (q : Request) (n : NewRow) (db : Db F)
      (a : Reservation) (after : Db F)
      → create_body e tenant org_id q n db ≡ ok (a, after)
      → (row : Row) × (create_reservation e.resources tenant e.fresh e.db_now n db.rows
          ≡ ok (row, after.rows))
  unfolding create_body
  create_body-rows e tenant org_id q n db a after steps =
      elim (Result-cases (create_reservation e.resources tenant e.fresh e.db_now n db.rows)) [
        | inr (x, r) ↦ absurd (ground (arith, r, steps))
        | inl ((row, rows), r) ↦
            let same : rows ≡ after.rows = ground (arith, r, steps) in
            (row, r ∙ ap (λ rows. ok (row, rows)) same)
      ]

  pub create-Change :
      (e : Env F) (tenant : Uuid) (org_id : Bytes) (q : Request) (db : Db F)
      → Change db.rows (create e tenant org_id q db).1.rows
  unfolding create
  create-Change e tenant org_id q db = elim (Result-cases (create_checks e q)) [
    | inr (x, r) ↦ rw (r, create) unchanged
    | inl (n, r) ↦
        rw (r, create)
          (within_keeps (Change db.rows) (create_body e tenant org_id q n) db unchanged
            (λ a after steps.
              let (row, accepted) = create_body-rows e tenant org_id q n db a after steps in
              inserted e.resources tenant e.fresh e.db_now n row accepted))
  ]

  sweep_body-rows :
      (e : Env F) (tenant : Uuid) (cutoff : Time) (db : Db F) (a : List Reservation) (after : Db F)
      → sweep_body e tenant cutoff db ≡ ok (a, after)
      → (mark_no_shows tenant cutoff e.db_now db.rows).1 ≡ after.rows
  unfolding sweep_body
  sweep_body-rows e tenant cutoff db a after steps = ground (arith, steps)

  pub sweep-Change :
      (e : Env F) (tenant : Uuid) (cutoff : Time) (db : Db F)
      → Change db.rows (sweep_no_shows e tenant cutoff db).1.rows
  unfolding sweep_no_shows
  sweep-Change e tenant cutoff db =
      within_keeps (Change db.rows) (sweep_body e tenant cutoff) db unchanged (λ a after steps.
        subst (Change db.rows) (sweep_body-rows e tenant cutoff db a after steps)
          (swept tenant cutoff e.db_now))

  pub work-Change :
      (e : Env F) (tenant : Uuid) (reservation_id : Bytes) (db : Db F)
      → Change db.rows (work_no_show_check e tenant reservation_id db).1.rows
  unfolding work_no_show_check
  work-Change e tenant reservation_id db = elim (Result-cases (get e tenant reservation_id db)) [
    | inr (x, g) ↦ subst (Change db.rows) (ground (arith, g)) unchanged
    | inl (booking, g) ↦ elim (Bool-cases (state_eq booking.state booked)) [
      | inr s ↦ subst (Change db.rows) (ground (arith, g, s)) unchanged
      | inl s ↦
          let same : (sweep_no_shows e tenant booking.ends_at db).1.rows
              ≡ (work_no_show_check e tenant reservation_id db).1.rows =
            elim (Result-cases (sweep_no_shows e tenant booking.ends_at db).0) [
              | inl (rows, q) ↦ ground (arith, g, s, q)
              | inr (x, q) ↦ ground (arith, g, s, q)
            ] in
          subst (Change db.rows) same (sweep-Change e tenant booking.ends_at db)
    ]
  ]
