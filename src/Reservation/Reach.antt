-- ===== src/Reservation/Reach.antt =====
-- Any sequence of commands, by any callers, in any tenants, under any clocks and collaborators.
use nise_and_go.Common.{List}
use nise_and_go.Common.Text.{Bytes}
use nise_and_go.Common.Clock.{Time}
use nise_and_go.Reservation.Store.{Uuid, Row}
use nise_and_go.Reservation.Effects.{Env, Db}
use nise_and_go.Reservation.Commands.{
  Actor, Request, create, check_out, give_back, cancel, sweep_no_shows, work_no_show_check,
}
use nise_and_go.Reservation.Schema.{IsConsistent, create-IsConsistent}
use nise_and_go.Reservation.Statements.{
  check_out-IsConsistent, return-IsConsistent, cancel-IsConsistent, sweep-IsConsistent,
}
use nise_and_go.Reservation.Change.{
  Change, unchanged, inserted, collected, brought_back, given_up, swept, create-Change,
  check_out-Change, give_back-Change, cancel-Change, sweep-Change, work-Change,
}

-- One command.
pub data Step {F : Type 0} : Db F → Db F → Type 0 where
  creates :
      {db : Db F} (e : Env F) (tenant : Uuid) (org_id : Bytes) (q : Request)
      → Step db (create e tenant org_id q db).1
  checks_out :
      {db : Db F} (e : Env F) (tenant : Uuid) (reservation_id : Bytes) (actor : Actor)
      → Step db (check_out e tenant reservation_id actor db).1
  returns :
      {db : Db F} (e : Env F) (tenant : Uuid) (reservation_id : Bytes) (actor : Actor)
      (note photo_key : Bytes)
      → Step db (give_back e tenant reservation_id actor note photo_key db).1
  cancels :
      {db : Db F} (e : Env F) (tenant : Uuid) (reservation_id : Bytes) (actor : Actor)
      → Step db (cancel e tenant reservation_id actor db).1
  sweeps :
      {db : Db F} (e : Env F) (tenant : Uuid) (cutoff : Time)
      → Step db (sweep_no_shows e tenant cutoff db).1
  works :
      {db : Db F} (e : Env F) (tenant : Uuid) (reservation_id : Bytes)
      → Step db (work_no_show_check e tenant reservation_id db).1

-- Commands one after the other.
pub data Steps {F : Type 0} : Db F → Db F → Type 0 where
  done : {db : Db F} → Steps db db
  more : {a b c : Db F} → Step a b → Steps b c → Steps a c

pub Step-Change : {F : Type 0} {a b : Db F} → Step a b → Change a.rows b.rows
Step-Change {a} (creates e tenant org_id q) = create-Change e tenant org_id q a
Step-Change {a} (checks_out e tenant reservation_id actor) =
    check_out-Change e tenant reservation_id actor a
Step-Change {a} (returns e tenant reservation_id actor note photo_key) =
    give_back-Change e tenant reservation_id actor note photo_key a
Step-Change {a} (cancels e tenant reservation_id actor) =
    cancel-Change e tenant reservation_id actor a
Step-Change {a} (sweeps e tenant cutoff) = sweep-Change e tenant cutoff a
Step-Change {a} (works e tenant reservation_id) = work-Change e tenant reservation_id a

Change-IsConsistent :
    {rows after : List Row} → Change rows after → IsConsistent rows → IsConsistent after
Change-IsConsistent unchanged c = c
Change-IsConsistent {rows} {after} (inserted resources tenant id t n r h) c =
    create-IsConsistent resources tenant id t n rows {row = r} {after = after} h c
Change-IsConsistent {rows} {after} (collected tenant id t r h) c =
    check_out-IsConsistent tenant id t rows {r = r} {after = after} h c
Change-IsConsistent {rows} {after} (brought_back tenant id t note photo r h) c =
    return-IsConsistent tenant id t note photo rows {r = r} {after = after} h c
Change-IsConsistent {rows} {after} (given_up tenant id t r h) c =
    cancel-IsConsistent tenant id t rows {r = r} {after = after} h c
Change-IsConsistent {rows} (swept tenant cutoff t) c = sweep-IsConsistent tenant cutoff t rows c

-- If the constraints of the table hold to begin with, as they do of the empty one, they go on holding
-- whatever commands are run, in whatever order: no two live bookings of one resource overlap, no identifier is used twice, and each
-- timestamp is set in just the states that it belongs to.
pub steps-IsConsistent :
    {F : Type 0} {a b : Db F} → Steps a b → IsConsistent a.rows → IsConsistent b.rows
steps-IsConsistent done c = c
steps-IsConsistent (more s rest) c = steps-IsConsistent rest (Change-IsConsistent (Step-Change s) c)
