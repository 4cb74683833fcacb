-- ===== src/Reservation/Booking.antt =====
-- When `Create` refuses, and what it does not look at.
use nise_and_go.Common.{◌≡◌, refl, inl, inr, Bool, true, false, List, [], ◌∷◌, some, map, arith}
use nise_and_go.Common.Text.{Bytes, str_eq}
use nise_and_go.Common.Clock.{Time}
use nise_and_go.Common.Result.{ok, err, Result-cases, >>=-eq-ok}
use nise_and_go.Reservation.Window.{
  conflict, invalid, resource_unavailable, validate_window, window_check, validate_window_iff,
}
use nise_and_go.Reservation.Store.{
  Uuid, Row, Resource, NewRow, conflicts, any_row, fresh_row, create_reservation, has_resource,
  overlap,
}
use nise_and_go.Reservation.Effects.{Env, Db, of_option, schedule_confirmation_and_reminder}
use nise_and_go.Reservation.Commands.{Request, within, create, create_body, create_checks}
use nise_and_go.Reservation.History.{In}

any_row-In :
    (p : Row → Bool) (rows : List Row) (r : Row) → In r rows → p r ≡ true → any_row p rows ≡ true
unfolding any_row
any_row-In p [] r m h = absurd m
any_row-In p (x ∷ rows) r (inl e) h = rw (← e, h) refl
any_row-In p (x ∷ rows) r (inr m) h = ground (arith, any_row-In p rows r m h)

insert_refused :
    (resources : List Resource) (tenant id : Uuid) (t : Time) (n : NewRow) (rows : List Row)
    → window_check n.lower n.upper ≡ true
    → any_row (λ r. str_eq r.id id) rows ≡ false
    → any_row (conflicts (fresh_row tenant id t n)) rows ≡ true
    → create_reservation resources tenant id t n rows ≡ err overlap
unfolding create_reservation
insert_refused resources tenant id t n rows w f c = ground (arith, w, f, c)

-- A resource taken out of service.
abbrev pub retire : Time → Resource → Resource
retire t x = record x { retired_at = some t }

-- Retiring keeps the keys of the resources.
has_resource-retired :
    (t : Time) (id org : Uuid) (resources : List Resource)
    → has_resource id org (map (retire t) resources) ≡ has_resource id org resources
unfolding has_resource
has_resource-retired t id org [] = refl
has_resource-retired t id org (x ∷ xs) = rw (has_resource-retired t id org xs) refl

insert-retired :
    (t : Time) (resources : List Resource) (tenant id : Uuid) (db_now : Time) (n : NewRow)
    (rows : List Row)
    → create_reservation (map (retire t) resources) tenant id db_now n rows
      ≡ create_reservation resources tenant id db_now n rows
unfolding create_reservation
insert-retired t resources tenant id db_now n rows =
    rw (has_resource-retired t n.resource tenant resources) refl

module _ {F : Type 0} where
  checks_window :
      (e : Env F) (q : Request) {n : NewRow}
      → create_checks e q ≡ ok n
      → window_check n.lower n.upper ≡ true
  unfolding create_checks
  checks_window e q {n} h =
      let (resource, _, h1) =
        >>=-eq-ok (of_option resource_unavailable (e.parse_uuid q.resource_id)) _ h in
      let (holder, _, h2) = >>=-eq-ok (of_option invalid (e.parse_uuid q.holder_id)) _ h1 in
      let (_, valid, h3) = >>=-eq-ok (validate_window q.starts_at q.ends_at) _ h2 in
      ground (arith, (validate_window_iff q.starts_at q.ends_at).0, valid, h3)

  -- A request that is in order, for a window in which the resource is taken by a live booking, is
  -- answered with a conflict, and neither the table nor the collaborators' stores change. (The
  -- identifier that the database generates must not be in use.)
  pub create_conflict :
      (e : Env F) (tenant : Uuid) (org_id : Bytes) (q : Request) (db : Db F) (r : Row) {n : NewRow}
      → create_checks e q ≡ ok n
      → any_row (λ s. str_eq s.id e.fresh) db.rows ≡ false
      → In r db.rows
      → conflicts (fresh_row tenant e.fresh e.db_now n) r ≡ true
      → create e tenant org_id q db ≡ (err conflict, db)
  unfolding create create_body
  create_conflict e tenant org_id q db r {n} h f m c =
      let refused =
        insert_refused e.resources tenant e.fresh e.db_now n db.rows (checks_window e q {n = n} h) f
          (any_row-In (conflicts (fresh_row tenant e.fresh e.db_now n)) db.rows r m c) in
      rw (h, refused, create, within, create_body) refl

  -- `Create` does not look at whether a resource is retired: it answers as it would if every resource
  -- were, and changes the same.
  pub create-retired_at :
      (e : Env F) (t : Time) (tenant : Uuid) (org_id : Bytes) (q : Request) (db : Db F)
      → create (record e { resources = map (retire t) e.resources }) tenant org_id q db
        ≡ create e tenant org_id q db
  unfolding create create_body create_checks schedule_confirmation_and_reminder
  create-retired_at e t tenant org_id q db = elim (Result-cases (create_checks e q)) [
    | inr (x, h) ↦ rw (h, create) refl
    | inl (n, h) ↦
        let same = insert-retired t e.resources tenant e.fresh e.db_now n db.rows in
        rw (h, same, create, within, create_body) refl
  ]
