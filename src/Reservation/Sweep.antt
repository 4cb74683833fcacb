-- ===== src/Reservation/Sweep.antt =====
-- What a sweep marks, and what the check of one booking marks besides that booking.
use nise_and_go.Common.{◌≡◌, sym, subst, inl, inr, true, false, List, [], ◌∷◌, arith, if◌then◌else◌}
use nise_and_go.Common.Text.{Bytes, All}
use nise_and_go.Common.Clock.{Time}
use nise_and_go.Common.Result.{ok, Result-cases}
use nise_and_go.Reservation.Window.{booked, state_eq}
use nise_and_go.Reservation.Store.{Uuid, Row, update_where, is_overdue, set_no_show, mark_no_shows}
use nise_and_go.Reservation.Effects.{Env, Db, Reservation}
use nise_and_go.Reservation.Commands.{
  sweep_no_shows, sweep_body, sweep_effects, get, work_no_show_check,
}
use nise_and_go.Reservation.History.{In, In_map}

overdue_none :
    (tenant : Uuid) (cutoff t : Time) (rows : List Row)
    → All
        (λ r. is_overdue tenant cutoff r ≡ false)
        (update_where (is_overdue tenant cutoff) (set_no_show t) rows)
overdue_none tenant cutoff t [] = tt
overdue_none tenant cutoff t (r ∷ rs) = (ground arith, overdue_none tenant cutoff t rs)

module _ {F : Type 0} where
  sweep_rows :
      (e : Env F) (tenant : Uuid) (cutoff : Time) (db : Db F) {swept : List Reservation}
      → (sweep_no_shows e tenant cutoff db).0 ≡ ok swept
      → (sweep_no_shows e tenant cutoff db).1.rows
        ≡ update_where (is_overdue tenant cutoff) (set_no_show e.db_now) db.rows
  unfolding sweep_no_shows sweep_body mark_no_shows
  sweep_rows e tenant cutoff db h =
      elim (Result-cases
        (sweep_effects e (mark_no_shows tenant cutoff e.db_now db.rows).0 db.effects)) [
          | inl (f, q) ↦ ground (arith, q, h)
          | inr (x, q) ↦ absurd (ground (arith, q, h))
        ]

  -- A sweep that answers with no error leaves no booking of the tenant that was due by the cutoff and
  -- is still merely booked, has marked those that were, and has left every other row as it was.
  pub sweep_lem :
      (e : Env F) (tenant : Uuid) (cutoff : Time) (db : Db F) {swept : List Reservation}
      → (sweep_no_shows e tenant cutoff db).0 ≡ ok swept
      → All (λ r. is_overdue tenant cutoff r ≡ false) (sweep_no_shows e tenant cutoff db).1.rows
        × ((r : Row)
            → In r db.rows
            → In
                (if is_overdue tenant cutoff r then set_no_show e.db_now r else r)
                (sweep_no_shows e tenant cutoff db).1.rows)
  sweep_lem e tenant cutoff db {swept} h =
      let same = sweep_rows e tenant cutoff db {swept = swept} h in
      (
        subst (All (λ r. is_overdue tenant cutoff r ≡ false)) (sym same)
            (overdue_none tenant cutoff e.db_now db.rows),
        λ r m.
            subst (In (if is_overdue tenant cutoff r then set_no_show e.db_now r else r)) (sym same)
              (In_map (λ r. if is_overdue tenant cutoff r then set_no_show e.db_now r else r) r
                db.rows m),
      )

  work_swept :
      (e : Env F) (tenant : Uuid) (reservation_id : Bytes) (db : Db F) {booking : Reservation}
      → get e tenant reservation_id db ≡ ok booking
      → state_eq booking.state booked ≡ true
      → (work_no_show_check e tenant reservation_id db).0 ≡ ok tt
      → (swept : List Reservation) × ((sweep_no_shows e tenant booking.ends_at db).0 ≡ ok swept)
        × ((sweep_no_shows e tenant booking.ends_at db).1
            ≡ (work_no_show_check e tenant reservation_id db).1)
  unfolding work_no_show_check
  work_swept e tenant reservation_id db {booking} g s h =
      elim (Result-cases (sweep_no_shows e tenant booking.ends_at db).0) [
        | inl (swept, q) ↦ (swept, q, ground (arith, g, s, q))
        | inr (x, q) ↦ absurd (ground (arith, g, s, q, h))
      ]

  -- The check of one booking marks every booking of the tenant that is due no later and is still
  -- merely booked, not only the one it was scheduled for.
  pub work_marks_all :
      (e : Env F) (tenant : Uuid) (reservation_id : Bytes) (db : Db F) (r : Row)
      {booking : Reservation}
      → get e tenant reservation_id db ≡ ok booking
      → state_eq booking.state booked ≡ true
      → (work_no_show_check e tenant reservation_id db).0 ≡ ok tt
      → In r db.rows
      → is_overdue tenant booking.ends_at r ≡ true
      → In (set_no_show e.db_now r) (work_no_show_check e tenant reservation_id db).1.rows
  work_marks_all e tenant reservation_id db r {booking} g s h m due =
      let (swept, ran, same) = work_swept e tenant reservation_id db {booking = booking} g s h in
      let moved = (sweep_lem e tenant booking.ends_at db {swept = swept} ran).1 r m in
      subst (λ d. In (set_no_show e.db_now r) d.rows) same
        (subst
          (λ b.
            In (if b then set_no_show e.db_now r else r)
              (sweep_no_shows e tenant booking.ends_at db).1.rows)
          due moved)
