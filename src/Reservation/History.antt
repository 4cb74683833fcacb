-- ===== src/Reservation/History.antt =====
-- What becomes of a booking over any sequence of commands.
use nise_and_go.Common.{
  ◌≡◌, refl, sym, subst, ap, ◌∙◌, ◌⊎◌, inl, inr, Bool, true, ◌&&◌, ◌||◌, List, [], ◌∷◌, Option, map,
  arith,
}
use nise_and_go.Common.Text.{Bytes, All}
use nise_and_go.Common.Clock.{Time}
use nise_and_go.Reservation.Window.{State, booked, checked_out, returned, state_eq}
use nise_and_go.Reservation.Store.{
  Uuid, Row, in_state, set_checked_out, set_returned, set_cancelled, is_overdue, set_no_show,
  check_out_reservation, return_reservation, cancel_reservation, mark_no_shows, fresh_row,
}
use nise_and_go.Reservation.Effects.{Db}
use nise_and_go.Reservation.Schema.{create_steps}
use nise_and_go.Reservation.Statements.{when, update_one-rows}
use nise_and_go.Reservation.Change.{
  Change, unchanged, inserted, collected, brought_back, given_up, swept,
}
use nise_and_go.Reservation.Reach.{Steps, done, more, Step-Change}

-- The arrows of the state machine, and their compositions.
abbrev pub later : State → State → Bool
later s t = state_eq s t || state_eq s booked || (state_eq s checked_out && state_eq t returned)

-- What became of a row: its identity and window never change, its state only moves forward.
pub record Became (r s : Row) : Type 0 where
  pub same_id : s.id ≡ r.id
  pub same_org : s.org ≡ r.org
  pub same_resource : s.resource ≡ r.resource
  pub same_holder : s.holder ≡ r.holder
  pub same_lower : s.lower ≡ r.lower
  pub same_upper : s.upper ≡ r.upper
  pub forward : later r.state s.state ≡ true

abbrev pub In : Row → List Row → Type 0
In s [] = ⊥
In s (r ∷ rs) = (s ≡ r) ⊎ In s rs

-- No row is lost.
abbrev pub Evolves : List Row → List Row → Type 0
Evolves rows after = All (λ r. (s : Row) × In s after × Became r s) rows

Became-trans : {r s t : Row} → Became r s → Became s t → Became r t
Became-trans {r} {s} {t} a b = record {
  same_id = b.same_id ∙ a.same_id;
  same_org = b.same_org ∙ a.same_org;
  same_resource = b.same_resource ∙ a.same_resource;
  same_holder = b.same_holder ∙ a.same_holder;
  same_lower = b.same_lower ∙ a.same_lower;
  same_upper = b.same_upper ∙ a.same_upper;
  forward = ground (arith, a.forward, b.forward);
}

Became-of :
    {r s : Row}
    → (s.id ≡ r.id)
      × (s.org ≡ r.org)
      × (s.resource ≡ r.resource)
      × (s.holder ≡ r.holder)
      × (s.lower ≡ r.lower)
      × (s.upper ≡ r.upper)
      × (later r.state s.state ≡ true)
    → Became r s
Became-of (i, o, re, h, l, u, f) = record {
  same_id = i;
  same_org = o;
  same_resource = re;
  same_holder = h;
  same_lower = l;
  same_upper = u;
  forward = f;
}

Became-refl : (r : Row) → Became r r
Became-refl r = Became-of (ground arith)

pub In_map : (f : Row → Row) (r : Row) (rows : List Row) → In r rows → In (f r) (map f rows)
In_map f r [] m = absurd m
In_map f r (x ∷ rows) (inl e) = inl (ap f e)
In_map f r (x ∷ rows) (inr m) = inr (In_map f r rows m)

-- The rows of a part of the table, where each is changed by a step that goes forward.
mapped_part :
    (f : Row → Row) (rows part : List Row)
    → ((r : Row) → Became r (f r))
    → ((r : Row) → In r part → In r rows)
    → Evolves part (map f rows)
mapped_part f rows [] k sub = tt
mapped_part f rows (r ∷ part) k sub = (
  (f r, In_map f r rows (sub r (inl refl)), k r),
  mapped_part f rows part k (λ x m. sub x (inr m)),
)

mapped :
    (f : Row → Row) (rows : List Row) → ((r : Row) → Became r (f r)) → Evolves rows (map f rows)
mapped f rows k = mapped_part f rows rows k (λ r m. m)

kept_part : (rows part : List Row) → ((r : Row) → In r part → In r rows) → Evolves part rows
kept_part rows [] sub = tt
kept_part rows (r ∷ part) sub =
    ((r, sub r (inl refl), Became-refl r), kept_part rows part (λ x m. sub x (inr m)))

check_out-Became :
    (tenant id : Uuid) (t : Time) (r : Row)
    → Became r (when (in_state tenant id booked) (set_checked_out t) r)
check_out-Became tenant id t r = Became-of (ground arith)

return-Became :
    (tenant id : Uuid) (t : Time) (note : Bytes) (photo : Option Bytes) (r : Row)
    → Became r (when (in_state tenant id checked_out) (set_returned t note photo) r)
return-Became tenant id t note photo r = Became-of (ground arith)

cancel-Became :
    (tenant id : Uuid) (t : Time) (r : Row)
    → Became r (when (in_state tenant id booked) (set_cancelled t) r)
cancel-Became tenant id t r = Became-of (ground arith)

no_show-Became :
    (tenant : Uuid) (cutoff t : Time) (r : Row)
    → Became r (when (is_overdue tenant cutoff) (set_no_show t) r)
no_show-Became tenant cutoff t r = Became-of (ground arith)

Change-Evolves : {rows after : List Row} → Change rows after → Evolves rows after
unfolding check_out_reservation return_reservation cancel_reservation mark_no_shows
Change-Evolves {rows} unchanged = kept_part rows rows (λ r m. m)
Change-Evolves {rows} {after} (inserted resources tenant id t n r h) =
    let (_, _, _, _, same) =
      create_steps resources tenant id t n rows {row = r} {after = after} h in
    rw same (kept_part (fresh_row tenant id t n ∷ rows) rows (λ r m. inr m))
Change-Evolves {rows} {after} (collected tenant id t r h) =
    rw (update_one-rows (in_state tenant id booked) (set_checked_out t) rows {r = r} h) (
      mapped (when (in_state tenant id booked) (set_checked_out t)) rows
        (check_out-Became tenant id t))
Change-Evolves {rows} {after} (brought_back tenant id t note photo r h) =
    rw (update_one-rows (in_state tenant id checked_out) (set_returned t note photo) rows {r = r} h)
      (mapped (when (in_state tenant id checked_out) (set_returned t note photo)) rows
        (return-Became tenant id t note photo))
Change-Evolves {rows} {after} (given_up tenant id t r h) =
    rw (update_one-rows (in_state tenant id booked) (set_cancelled t) rows {r = r} h)
      (mapped (when (in_state tenant id booked) (set_cancelled t)) rows (cancel-Became tenant id t))
Change-Evolves {rows} (swept tenant cutoff t) =
    mapped (when (is_overdue tenant cutoff) (set_no_show t)) rows (no_show-Became tenant cutoff t)

find-Became :
    (rows after : List Row) (r : Row)
    → Evolves rows after
    → In r rows
    → (s : Row) × In s after × Became r s
find-Became [] after r h m = absurd m
find-Became (x ∷ rows) after r h (inl e) =
    let (s, m, b) = h.0 in (s, m, subst (λ y. Became y s) (sym e) b)
find-Became (x ∷ rows) after r h (inr m) = find-Became rows after r h.1 m

-- Whatever commands are run, a booking is never lost: it stays in the table with its identifier,
-- tenant, resource, holder and window, and its state moves only along the arrows of the state
-- machine, so that a returned, cancelled or missed booking stays what it is.
pub steps_history :
    {F : Type 0} {a b : Db F} (r : Row)
    → Steps a b
    → In r a.rows
    → (s : Row) × In s b.rows × Became r s
steps_history r done m = (r, m, Became-refl r)
steps_history {a} r (more {b} s rest) m =
    let (x, mx, bx) = find-Became a.rows b.rows r (Change-Evolves (Step-Change s)) m in
    let (y, my, by_) = steps_history x rest mx in (y, my, Became-trans bx by_)
