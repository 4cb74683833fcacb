-- ===== src/Reservation/Outcome.antt =====
-- Whether a booking can be collected twice.
use nise_and_go.Common.{
  ◌≡◌, refl, sym, subst, ap, ◌∙◌, inl, inr, Bool, true, false, List, [], ◌∷◌, some, arith,
  Bool-cases, Option-cases,
}
use nise_and_go.Common.Text.{Bytes, str_eq-eq, str_eq_refl}
use nise_and_go.Common.Keys.{contains, Distinct}
use nise_and_go.Common.Result.{ok, Result-cases, is_ok}
use nise_and_go.Reservation.Window.{booked, checked_out}
use nise_and_go.Reservation.Store.{
  Uuid, Row, first_where, update_one, update_where, is_row, in_state, set_checked_out,
  get_reservation, check_out_reservation,
}
use nise_and_go.Reservation.Effects.{Env, Db, Reservation, action_checked_out}
use nise_and_go.Reservation.Commands.{Actor, transition, transition_body, check_out, check_out_act}
use nise_and_go.Reservation.Change.{transition_act}
use nise_and_go.Reservation.Schema.{ids, IsConsistent}
use nise_and_go.Reservation.Reach.{Steps, Step, checks_out, more, steps-IsConsistent}
use nise_and_go.Reservation.History.{In, steps_history}

first_where_sound :
    (p : Row → Bool) (rows : List Row) {r : Row}
    → first_where p rows ≡ some r
    → In r rows × (p r ≡ true)
unfolding first_where
first_where_sound p [] h = cc
first_where_sound p (x ∷ rows) {r} h = elim (Bool-cases (p x)) [
  | inl e ↦
      let same : x ≡ r = ground (arith, e, h) in (inl (sym same), subst (λ y. p y ≡ true) same e)
  | inr e ↦ let (m, q) = first_where_sound p rows {r = r} (ground (arith, e, h)) in (inr m, q)
]

In_updated :
    (p : Row → Bool) (f : Row → Row) (rows : List Row) (r : Row)
    → In r rows
    → p r ≡ true
    → In (f r) (update_where p f rows)
In_updated p f [] r m h = absurd m
In_updated p f (x ∷ rows) r (inl e) h = inl (rw (← e, h) refl)
In_updated p f (x ∷ rows) r (inr m) h = inr (In_updated p f rows r m h)

In-ids : (r : Row) (rows : List Row) → In r rows → contains (ids rows) r.id ≡ true
unfolding contains
In-ids r [] m = absurd m
In-ids r (x ∷ rows) (inl e) = rw (← e, str_eq_refl r.id) refl
In-ids r (x ∷ rows) (inr m) = ground (arith, In-ids r rows m)

-- The key: two rows of the table with one identifier are one row.
In_unique :
    (r s : Row) (rows : List Row)
    → Distinct (ids rows)
    → In r rows
    → In s rows
    → r.id ≡ s.id
    → r ≡ s
In_unique r s [] d m n e = absurd m
In_unique r s (x ∷ rows) d (inl a) (inl b) e = a ∙ sym b
In_unique r s (x ∷ rows) d (inl a) (inr n) e =
    absurd (ground (arith, In-ids s rows n, d.0, ap (λ y. y.id) a, e))
In_unique r s (x ∷ rows) d (inr m) (inl b) e =
    absurd (ground (arith, In-ids r rows m, d.0, ap (λ y. y.id) b, e))
In_unique r s (x ∷ rows) d (inr m) (inr n) e = In_unique r s rows d.1 m n e

update_one-In :
    (p : Row → Bool) (f : Row → Row) (rows : List Row) {u : Row} {after : List Row}
    → update_one p f rows ≡ some (u, after)
    → (r : Row) × (p r ≡ true) × (u ≡ f r) × In (f r) after
unfolding update_one
update_one-In p f rows {u} {after} h = elim (Option-cases (first_where p rows)) [
  | inl e ↦ absurd (ground (arith, e, h))
  | inr (r, e) ↦
      let (m, q) = first_where_sound p rows {r = r} e in
      let same : update_where p f rows ≡ after = ground (arith, e, h) in
      (r, q, ground (arith, e, h), subst (In (f r)) same (In_updated p f rows r m q))
]

-- A row by its identifier.
named :
    (tenant id : Uuid) (rows : List Row) {r : Row}
    → get_reservation tenant id rows ≡ some r
    → In r rows × (r.id ≡ id)
unfolding get_reservation
named tenant id rows {r} h =
    let (m, q) = first_where_sound (is_row tenant id) rows {r = r} h in
    (m, str_eq-eq r.id id (ground (arith, q)))

module _ {F : Type 0} where
  -- A transition that answers with no error ran its body to the end.
  transition_ran :
      (e : Env F) (tenant id : Uuid) (reservation_id : Bytes) (actor : Actor) (db : Db F)
      {booking : Reservation}
      → e.parse_uuid reservation_id ≡ some id
      → (check_out e tenant reservation_id actor db).0 ≡ ok booking
      → transition_body e tenant id actor booked action_checked_out (check_out_act e tenant) db
        ≡ ok (booking, (check_out e tenant reservation_id actor db).1)
  unfolding check_out transition
  transition_ran e tenant id reservation_id actor db {booking} p h =
      elim (Result-cases
        (transition_body e tenant id actor booked action_checked_out (check_out_act e tenant) db)) [
          | inr (x, q) ↦ absurd (ground (arith, p, q, h))
          | inl ((a, after), q) ↦ ground (arith, p, q, h)
        ]

  check_out_row :
      (e : Env F) (tenant id : Uuid) (reservation_id : Bytes) (actor : Actor) (db : Db F)
      {booking : Reservation}
      → e.parse_uuid reservation_id ≡ some id
      → (check_out e tenant reservation_id actor db).0 ≡ ok booking
      → (r : Row) × In r (check_out e tenant reservation_id actor db).1.rows
        × (r.id ≡ id)
        × (r.state ≡ checked_out)
  unfolding check_out_act check_out_reservation
  check_out_row e tenant id reservation_id actor db {booking} p h =
      let after = (check_out e tenant reservation_id actor db).1 in
      let ran = transition_ran e tenant id reservation_id actor db {booking = booking} p h in
      let (current, updated, acted, got, _) =
        transition_act e tenant id actor booked action_checked_out (check_out_act e tenant) db
          booking after ran in
      let (r, q, _, m) =
        update_one-In (in_state tenant current.id booked) (set_checked_out e.db_now) db.rows
          {u = updated} {after = after.rows} (ground (arith, acted)) in
      let (_, same) = named tenant id db.rows {r = current} got in
      (set_checked_out e.db_now r, m, str_eq-eq r.id current.id (ground (arith, q)) ∙ same, refl)

  -- Once a booking of a table that satisfies its constraints has been collected, no later attempt to
  -- collect it succeeds: whatever commands have been run since, whoever asks, in whatever tenant.
  pub collected_once :
      (e e2 : Env F) (tenant tenant2 id : Uuid) (text text2 : Bytes) (actor actor2 : Actor)
      (db later_db : Db F) {booking : Reservation}
      → IsConsistent db.rows
      → e.parse_uuid text ≡ some id
      → (check_out e tenant text actor db).0 ≡ ok booking
      → Steps (check_out e tenant text actor db).1 later_db
      → e2.parse_uuid text2 ≡ some id
      → is_ok (check_out e2 tenant2 text2 actor2 later_db).0 ≡ false
  collected_once e e2 tenant tenant2 id text text2 actor actor2 db later_db {booking} c p h steps
        p2 =
      let first : Step db (check_out e tenant text actor db).1 = checks_out e tenant text actor in
      let consistent = steps-IsConsistent (more first steps) c in
      let (r, m, name, state) = check_out_row e tenant id text actor db {booking = booking} p h in
      let (s, n, b) = steps_history r steps m in
      elim (Result-cases (check_out e2 tenant2 text2 actor2 later_db).0) [
        | inr (x, q) ↦ rw q refl
        | inl (again, q) ↦
            let ran = transition_ran e2 tenant2 id text2 actor2 later_db {booking = again} p2 q in
            let (current, _, _, got, ready) =
              transition_act e2 tenant2 id actor2 booked action_checked_out
                (check_out_act e2 tenant2) later_db again
                (check_out e2 tenant2 text2 actor2 later_db).1 ran in
            let (k, same) = named tenant2 id later_db.rows {r = current} got in
            let one =
              In_unique s current later_db.rows consistent.key n k (b.same_id ∙ name ∙ sym same) in
            absurd (ground (arith, b.forward, state, ready, ap (λ x. x.state) one))
      ]
