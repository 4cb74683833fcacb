-- ===== src/Reservation/Store.antt =====
-- queries/reservation.sql and the constraints of db/migrations/00014_workbench.sql, as functions on
-- the table of reservations. An instant is stored as it is given. A row that the tenant may not see
-- is no row of a statement.
use nise_and_go.Common.{
  Bool, false, ◌&&◌, ◌||◌, not, List, [], ◌∷◌, Option, none, some, map, if◌then◌else◌,
}
use nise_and_go.Common.Text.{Bytes, str_eq}
use nise_and_go.Common.Result.{Result, ok, ◌>>◌, fail_if}
use nise_and_go.Common.Clock.{Time, before}
use nise_and_go.Common.Int.{leb_ℤ}
use nise_and_go.Reservation.Window.{
  State, booked, checked_out, returned, cancelled, no_show, state_eq, window_check,
}

-- pgtype.UUID, valid: its sixteen bytes.
abbrev pub Uuid : Type 0
Uuid = Bytes

-- A row of `reservations`; `during` is the half-open range from `lower` to `upper`.
pub record Row : Type 0 where
  pub id : Uuid
  pub org : Uuid
  pub resource : Uuid
  pub holder : Uuid
  pub lower : Time
  pub upper : Time
  pub state : State
  pub note : Bytes
  pub return_note : Bytes
  pub return_photo_key : Option Bytes
  pub checked_out_at : Option Time
  pub returned_at : Option Time
  pub cancelled_at : Option Time
  pub created_at : Time
  pub updated_at : Time

-- A row of `resources`, as far as a reservation refers to it.
pub record Resource : Type 0 where
  pub id : Uuid
  pub org : Uuid
  pub retired_at : Option Time

-- The rows that a statement with `WHERE id = $1` is about.
abbrev pub is_row : Uuid → Uuid → Row → Bool
is_row tenant id r = str_eq r.org tenant && str_eq r.id id

unfoldable pub first_where : (Row → Bool) → List Row → Option Row
first_where p [] = none
first_where p (r ∷ rs) = if p r then some r else first_where p rs

-- `UPDATE ... SET f WHERE p`
abbrev pub update_where : (Row → Bool) → (Row → Row) → List Row → List Row
update_where p f rows = map (λ r. if p r then f r else r) rows

-- `... RETURNING`, `:one`: the row updated, and the table; `none` is pgx.ErrNoRows.
unfoldable pub update_one : (Row → Bool) → (Row → Row) → List Row → Option (Row × List Row)
unfolding first_where
update_one p f rows = elim (first_where p rows) [
  | none ↦ none
  | some r ↦ some (f r, update_where p f rows)
]

-- The states in which `reservations_no_overlap` holds.
abbrev pub live : Row → Bool
live r = state_eq r.state booked || state_eq r.state checked_out

-- `a.during && b.during`
abbrev pub overlaps : Row → Row → Bool
overlaps a b = before a.lower b.upper && before b.lower a.upper

-- Two rows that `reservations_no_overlap` excludes.
unfoldable pub conflicts : Row → Row → Bool
conflicts a b = live a && live b && str_eq a.resource b.resource && overlaps a b

unfoldable pub any_row : (Row → Bool) → List Row → Bool
any_row p [] = false
any_row p (r ∷ rs) = p r || any_row p rs

unfoldable pub has_resource : Uuid → Uuid → List Resource → Bool
has_resource id org [] = false
has_resource id org (x ∷ xs) = (str_eq x.id id && str_eq x.org org) || has_resource id org xs

-- What a statement can fail with, as far as the code tells it apart.
pub data StoreError : Type 0 where
  overlap unbookable other : StoreError

pub record NewRow : Type 0 where
  pub resource : Uuid
  pub holder : Uuid
  pub lower : Time
  pub upper : Time
  pub note : Bytes

abbrev pub fresh_row : Uuid → Uuid → Time → NewRow → Row
fresh_row tenant id db_now n = record {
  id = id;
  org = tenant;
  resource = n.resource;
  holder = n.holder;
  lower = n.lower;
  upper = n.upper;
  state = booked;
  note = n.note;
  return_note = [];
  return_photo_key = none;
  checked_out_at = none;
  returned_at = none;
  cancelled_at = none;
  created_at = db_now;
  updated_at = db_now;
}

-- CreateReservation: the check of the window, the key, the exclusion, the foreign key to the resource. That
-- to the holder is left out: the table of users is another component's, and the holder is the session's.
unfoldable pub create_reservation :
    List Resource → Uuid → Uuid → Time → NewRow → List Row → Result StoreError (Row × List Row)
unfolding conflicts any_row has_resource
create_reservation resources tenant id db_now n rows = do
  let row = fresh_row tenant id db_now n
  fail_if (not (window_check n.lower n.upper)) other
  fail_if (any_row (λ r. str_eq r.id id) rows) other
  fail_if (any_row (conflicts row) rows) overlap
  fail_if (not (has_resource n.resource tenant resources)) unbookable
  ok (row, row ∷ rows)

-- GetReservation and GetReservationForUpdate.
unfoldable pub get_reservation : Uuid → Uuid → List Row → Option Row
unfolding first_where
get_reservation tenant id rows = first_where (is_row tenant id) rows

abbrev pub in_state : Uuid → Uuid → State → Row → Bool
in_state tenant id s r = is_row tenant id r && state_eq r.state s

abbrev pub set_checked_out : Time → Row → Row
set_checked_out db_now r = record r {
  state = checked_out;
  checked_out_at = some db_now;
  updated_at = db_now;
}

-- CheckOutReservation.
unfoldable pub check_out_reservation : Uuid → Uuid → Time → List Row → Option (Row × List Row)
unfolding update_one
check_out_reservation tenant id db_now rows =
    update_one (in_state tenant id booked) (set_checked_out db_now) rows

abbrev pub set_returned : Time → Bytes → Option Bytes → Row → Row
set_returned db_now note photo r = record r {
  state = returned;
  returned_at = some db_now;
  return_note = note;
  return_photo_key = photo;
  updated_at = db_now;
}

-- ReturnReservation.
unfoldable pub return_reservation :
    Uuid → Uuid → Time → Bytes → Option Bytes → List Row → Option (Row × List Row)
unfolding update_one
return_reservation tenant id db_now note photo rows =
    update_one (in_state tenant id checked_out) (set_returned db_now note photo) rows

abbrev pub set_cancelled : Time → Row → Row
set_cancelled db_now r = record r {
  state = cancelled;
  cancelled_at = some db_now;
  updated_at = db_now;
}

-- CancelReservation.
unfoldable pub cancel_reservation : Uuid → Uuid → Time → List Row → Option (Row × List Row)
unfolding update_one
cancel_reservation tenant id db_now rows =
    update_one (in_state tenant id booked) (set_cancelled db_now) rows

-- The rows of MarkNoShows.
abbrev pub is_overdue : Uuid → Time → Row → Bool
is_overdue tenant cutoff r = str_eq r.org tenant && state_eq r.state booked && leb_ℤ r.upper cutoff

abbrev pub set_no_show : Time → Row → Row
set_no_show db_now r = record r { state = no_show; updated_at = db_now }

unfoldable pub marked : (Row → Bool) → (Row → Row) → List Row → List Row
marked p f [] = []
marked p f (r ∷ rs) = let rest = marked p f rs in if p r then f r ∷ rest else rest

-- MarkNoShows: the rows updated, and the table.
unfoldable pub mark_no_shows : Uuid → Time → Time → List Row → List Row × List Row
unfolding marked
mark_no_shows tenant cutoff db_now rows =
    let p = is_overdue tenant cutoff in
    (marked p (set_no_show db_now) rows, update_where p (set_no_show db_now) rows)
