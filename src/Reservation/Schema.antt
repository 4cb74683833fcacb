-- ===== src/Reservation/Schema.antt =====
-- The constraints that 00014_workbench.sql puts on the table, and what keeps them.
use nise_and_go.Common.{◌≡◌, refl, sym, ◌∙◌, Bool, true, false, ◌||◌, List, [], ◌∷◌, map, arith}
use nise_and_go.Common.Text.{str_eq, All}
use nise_and_go.Common.Clock.{Time}
use nise_and_go.Common.Maybe.{is_some}
use nise_and_go.Common.Keys.{contains, Distinct}
use nise_and_go.Common.Result.{ok}
use nise_and_go.Reservation.Window.{checked_out, returned, cancelled, state_eq, window_check}
use nise_and_go.Reservation.Store.{
  Uuid, Row, Resource, NewRow, live, conflicts, any_row, fresh_row, create_reservation,
}

-- The CHECK constraints of one row: the window's length, and each timestamp set in just the states
-- that it belongs to.
pub record IsWf (r : Row) : Type 0 where
  pub window : window_check r.lower r.upper ≡ true
  pub checked_out_set :
      is_some r.checked_out_at ≡ (state_eq r.state checked_out || state_eq r.state returned)
  pub returned_set : is_some r.returned_at ≡ state_eq r.state returned
  pub cancelled_set : is_some r.cancelled_at ≡ state_eq r.state cancelled

abbrev pub ids : List Row → List Uuid
ids rows = map (λ r. r.id) rows

-- No two rows conflict.
abbrev pub NoOverlap : List Row → Type 0
NoOverlap [] = Unit {0}
NoOverlap (r ∷ rs) = All (λ s. conflicts r s ≡ false) rs × NoOverlap rs

-- All the constraints of the table.
pub record IsConsistent (rows : List Row) : Type 0 where
  pub checks : All IsWf rows
  pub key : Distinct (ids rows)
  pub exclusion : NoOverlap rows

pub nothing_booked : IsConsistent []
nothing_booked = record { checks = tt; key = tt; exclusion = tt }

-- A change of a row that moves neither its identity nor its window, and revives nothing.
abbrev pub IsTame : (Row → Row) → Type 0
IsTame f =
    (r : Row)
    → ((f r).id ≡ r.id)
      × ((f r).resource ≡ r.resource)
      × ((f r).lower ≡ r.lower)
      × ((f r).upper ≡ r.upper)
      × (live r ≡ false → live (f r) ≡ false)

tame_conflicts :
    (f : Row → Row) (a b : Row) → IsTame f → conflicts a b ≡ false → conflicts (f a) (f b) ≡ false
unfolding conflicts
tame_conflicts f a b t h =
    let (_, resource_a, lower_a, upper_a, live_a) = t a in
    let (_, resource_b, lower_b, upper_b, live_b) = t b in
    ground (arith, resource_a, lower_a, upper_a, live_a, resource_b, lower_b, upper_b, live_b, h)

tame_row :
    (f : Row → Row) (r : Row) (rs : List Row)
    → IsTame f
    → All (λ s. conflicts r s ≡ false) rs
    → All (λ s. conflicts (f r) s ≡ false) (map f rs)
tame_row f r [] t h = tt
tame_row f r (s ∷ rs) t h = (tame_conflicts f r s t h.0, tame_row f r rs t h.1)

tame_exclusion : (f : Row → Row) (rs : List Row) → IsTame f → NoOverlap rs → NoOverlap (map f rs)
tame_exclusion f [] t h = tt
tame_exclusion f (r ∷ rs) t h = (tame_row f r rs t h.0, tame_exclusion f rs t h.1)

tame_ids : (f : Row → Row) (rs : List Row) → IsTame f → ids (map f rs) ≡ ids rs
tame_ids f [] t = refl
tame_ids f (r ∷ rs) t = cc ((t r).0, tame_ids f rs t)

tame_checks :
    (f : Row → Row) (rs : List Row)
    → ((r : Row) → IsWf r → IsWf (f r))
    → All IsWf rs
    → All IsWf (map f rs)
tame_checks f [] k h = tt
tame_checks f (r ∷ rs) k h = (k r h.0, tame_checks f rs k h.1)

-- A tame change that keeps the checks of a row keeps the constraints of the table.
pub tame-IsConsistent :
    (f : Row → Row) (rows : List Row)
    → IsTame f
    → ((r : Row) → IsWf r → IsWf (f r))
    → IsConsistent rows
    → IsConsistent (map f rows)
tame-IsConsistent f rows t k c = record {
  checks = tame_checks f rows k c.checks;
  key = rw (tame_ids f rows t) c.key;
  exclusion = tame_exclusion f rows t c.exclusion;
}

any_row_none : (p : Row → Bool) (rs : List Row) → any_row p rs ≡ false → All (λ s. p s ≡ false) rs
unfolding any_row
any_row_none p [] h = tt
any_row_none p (r ∷ rs) h = (ground (arith, h), any_row_none p rs (ground (arith, h)))

any_row_id : (id : Uuid) (rs : List Row) → any_row (λ r. str_eq r.id id) rs ≡ contains (ids rs) id
unfolding any_row contains
any_row_id id [] = refl
any_row_id id (r ∷ rs) = rw (any_row_id id rs) refl

pub create_steps :
    (resources : List Resource) (tenant id : Uuid) (db_now : Time) (n : NewRow) (rows : List Row)
    {row : Row} {after : List Row}
    → create_reservation resources tenant id db_now n rows ≡ ok (row, after)
    → (window_check n.lower n.upper ≡ true)
      × (any_row (λ r. str_eq r.id id) rows ≡ false)
      × (any_row (conflicts (fresh_row tenant id db_now n)) rows ≡ false)
      × (row ≡ fresh_row tenant id db_now n)
      × (after ≡ fresh_row tenant id db_now n ∷ rows)
unfolding create_reservation
create_steps resources tenant id db_now n rows h = ground (arith, h)

-- An accepted insertion keeps the constraints.
pub create-IsConsistent :
    (resources : List Resource) (tenant id : Uuid) (db_now : Time) (n : NewRow) (rows : List Row)
    {row : Row} {after : List Row}
    → create_reservation resources tenant id db_now n rows ≡ ok (row, after)
    → IsConsistent rows
    → IsConsistent after
create-IsConsistent resources tenant id db_now n rows {row} {after} h c =
    let (window, fresh, free, _, same) =
      create_steps resources tenant id db_now n rows {row = row} {after = after} h in
    rw same (record {
      checks = (
        record {
          window = window;
          checked_out_set = refl;
          returned_set = refl;
          cancelled_set = refl;
        },
        c.checks,
      );
      key = (sym (any_row_id id rows) ∙ fresh, c.key);
      exclusion = (any_row_none (conflicts (fresh_row tenant id db_now n)) rows free, c.exclusion);
    })
