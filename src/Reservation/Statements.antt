-- ===== src/Reservation/Statements.antt =====
-- The UPDATE statements keep the constraints of the table, so none of them is ever refused by one.
use nise_and_go.Common.{◌≡◌, ◌⊎◌, Bool, true, ◌||◌, List, Option, some, arith, if◌then◌else◌}
use nise_and_go.Common.Text.{Bytes}
use nise_and_go.Common.Clock.{Time}
use nise_and_go.Common.Maybe.{is_some}
use nise_and_go.Reservation.Window.{
  State, booked, checked_out, returned, cancelled, no_show, state_eq, window_check,
}
use nise_and_go.Reservation.Store.{
  Uuid, Row, update_where, update_one, in_state, set_checked_out, set_returned, set_cancelled,
  is_overdue, set_no_show, check_out_reservation, return_reservation, cancel_reservation,
  mark_no_shows,
}
use nise_and_go.Reservation.Schema.{IsWf, IsTame, IsConsistent, tame-IsConsistent}

abbrev pub when : (Row → Bool) → (Row → Row) → Row → Row
when p f r = if p r then f r else r

pub update_one-rows :
    (p : Row → Bool) (f : Row → Row) (rows : List Row) {r : Row} {after : List Row}
    → update_one p f rows ≡ some (r, after)
    → after ≡ update_where p f rows
unfolding update_one
update_one-rows p f rows h = ground (arith, h)

state_cases :
    (s : State)
    → (s ≡ booked) ⊎ ((s ≡ checked_out) ⊎ ((s ≡ returned) ⊎ ((s ≡ cancelled) ⊎ (s ≡ no_show))))
state_cases s = ground arith

-- The four updates are tame: they end a booking or carry it on.
check_out-IsTame :
    (tenant id : Uuid) (t : Time) → IsTame (when (in_state tenant id booked) (set_checked_out t))
check_out-IsTame tenant id t r = ground arith

return-IsTame :
    (tenant id : Uuid) (t : Time) (note : Bytes) (photo : Option Bytes)
    → IsTame (when (in_state tenant id checked_out) (set_returned t note photo))
return-IsTame tenant id t note photo r = ground arith

cancel-IsTame :
    (tenant id : Uuid) (t : Time) → IsTame (when (in_state tenant id booked) (set_cancelled t))
cancel-IsTame tenant id t r = ground arith

no_show-IsTame :
    (tenant : Uuid) (cutoff t : Time) → IsTame (when (is_overdue tenant cutoff) (set_no_show t))
no_show-IsTame tenant cutoff t r = ground arith

IsWf-of :
    {r : Row}
    → (window_check r.lower r.upper ≡ true)
      × (is_some r.checked_out_at ≡ (state_eq r.state checked_out || state_eq r.state returned))
      × (is_some r.returned_at ≡ state_eq r.state returned)
      × (is_some r.cancelled_at ≡ state_eq r.state cancelled)
    → IsWf r
IsWf-of (w, c, b, g) = record {
  window = w;
  checked_out_set = c;
  returned_set = b;
  cancelled_set = g;
}

check_out_IsWf :
    (tenant id : Uuid) (t : Time) (r : Row)
    → IsWf r
    → IsWf (when (in_state tenant id booked) (set_checked_out t) r)
check_out_IsWf tenant id t r w =
    IsWf-of (ground (arith, w.window, w.checked_out_set, w.returned_set, w.cancelled_set))

return_IsWf :
    (tenant id : Uuid) (t : Time) (note : Bytes) (photo : Option Bytes) (r : Row)
    → IsWf r
    → IsWf (when (in_state tenant id checked_out) (set_returned t note photo) r)
return_IsWf tenant id t note photo r w =
    IsWf-of (ground (arith, w.window, w.checked_out_set, w.returned_set, w.cancelled_set))

cancel_IsWf :
    (tenant id : Uuid) (t : Time) (r : Row)
    → IsWf r
    → IsWf (when (in_state tenant id booked) (set_cancelled t) r)
cancel_IsWf tenant id t r w =
    IsWf-of (ground (arith, w.window, w.checked_out_set, w.returned_set, w.cancelled_set))

no_show_IsWf :
    (tenant : Uuid) (cutoff t : Time) (r : Row)
    → IsWf r
    → IsWf (when (is_overdue tenant cutoff) (set_no_show t) r)
no_show_IsWf tenant cutoff t r w =
    IsWf-of (ground (arith, w.window, w.checked_out_set, w.returned_set, w.cancelled_set))

pub check_out-IsConsistent :
    (tenant id : Uuid) (t : Time) (rows : List Row) {r : Row} {after : List Row}
    → check_out_reservation tenant id t rows ≡ some (r, after)
    → IsConsistent rows
    → IsConsistent after
unfolding check_out_reservation
check_out-IsConsistent tenant id t rows {r} {after} h c =
    rw (update_one-rows (in_state tenant id booked) (set_checked_out t) rows {r = r} h)
      (tame-IsConsistent _ rows (check_out-IsTame tenant id t) (check_out_IsWf tenant id t) c)

pub return-IsConsistent :
    (tenant id : Uuid) (t : Time) (note : Bytes) (photo : Option Bytes) (rows : List Row) {r : Row}
    {after : List Row}
    → return_reservation tenant id t note photo rows ≡ some (r, after)
    → IsConsistent rows
    → IsConsistent after
unfolding return_reservation
return-IsConsistent tenant id t note photo rows {r} {after} h c =
    rw (update_one-rows (in_state tenant id checked_out) (set_returned t note photo) rows {r = r} h)
      (tame-IsConsistent _ rows (return-IsTame tenant id t note photo)
        (return_IsWf tenant id t note photo) c)

pub cancel-IsConsistent :
    (tenant id : Uuid) (t : Time) (rows : List Row) {r : Row} {after : List Row}
    → cancel_reservation tenant id t rows ≡ some (r, after)
    → IsConsistent rows
    → IsConsistent after
unfolding cancel_reservation
cancel-IsConsistent tenant id t rows {r} {after} h c =
    rw (update_one-rows (in_state tenant id booked) (set_cancelled t) rows {r = r} h)
      (tame-IsConsistent _ rows (cancel-IsTame tenant id t) (cancel_IsWf tenant id t) c)

pub sweep-IsConsistent :
    (tenant : Uuid) (cutoff t : Time) (rows : List Row)
    → IsConsistent rows
    → IsConsistent (mark_no_shows tenant cutoff t rows).1
unfolding mark_no_shows
sweep-IsConsistent tenant cutoff t rows c =
    tame-IsConsistent _ rows (no_show-IsTame tenant cutoff t) (no_show_IsWf tenant cutoff t) c
