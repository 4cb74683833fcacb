-- ===== src/Reservation/Window.antt =====
-- reservation.go: the states, the bounds, and `validateWindow`.
use nise_and_go.Common.{suc, ℕ, ◌*◌, ◌≡◌, ◌↔◌, Bool, true, false, ◌&&◌, ◌||◌, not, arith}
use nise_and_go.Common.Int.{pos, ◌+ℤ◌, ltb_ℤ, leb_ℤ, +ℤ_parts}
use nise_and_go.Common.Result.{Result, ok, ◌>>◌, fail_if}
use nise_and_go.Common.Clock.{Time, is_zero, before, sub_time, sub_time-leb, minute, hour}

pub data State : Type 0 where
  booked checked_out returned cancelled no_show : State

-- `State(a) == b` on two of the five states.
abbrev pub state_eq : State → State → Bool
state_eq booked booked = true
state_eq checked_out checked_out = true
state_eq returned returned = true
state_eq cancelled cancelled = true
state_eq no_show no_show = true
state_eq a b = false

-- The errors of the package; `failed` is any other, wrapped.
pub data ReservationError : Type 0 where
  not_found invalid conflict wrong_state not_started not_holder resource_unavailable failed :
      ReservationError

abbrev pub max_note_bytes : ℕ
max_note_bytes = 2000

abbrev pub max_photo_key_bytes : ℕ
max_photo_key_bytes = 512

abbrev pub min_window : ℕ
min_window = 15 * minute

abbrev pub max_window : ℕ
max_window = 720 * hour

unfoldable pub validate_window : Time → Time → Result ReservationError (Unit {0})
validate_window starts_at ends_at = do
  fail_if (is_zero starts_at || is_zero ends_at) invalid
  fail_if (not (before starts_at ends_at)) invalid
  let length = sub_time ends_at starts_at
  fail_if (ltb_ℤ length (pos min_window)) invalid
  fail_if (ltb_ℤ (pos max_window) length) invalid

-- The table's own check of a window, `reservations_window_length`.
abbrev pub window_check : Time → Time → Bool
window_check lower upper =
    leb_ℤ (lower +ℤ pos min_window) upper && leb_ℤ upper (lower +ℤ pos max_window)

-- `validateWindow` accepts a window exactly when its ends are set and the table's check holds, so no
-- window that it accepts is refused by the table, even where the length does not fit a duration.
pub validate_window_iff :
    (starts_at ends_at : Time)
    → (validate_window starts_at ends_at ≡ ok tt) ↔ (
        (is_zero starts_at ≡ false)
        × (is_zero ends_at ≡ false)
        × (window_check starts_at ends_at ≡ true))
unfolding validate_window
validate_window_iff s e =
    let low = sub_time-leb e s (pos min_window) (omega arith) (omega arith) in
    let high = sub_time-leb e s (pos (suc max_window)) (omega arith) (omega arith) in
    let minimum = +ℤ_parts s (pos min_window) in
    let maximum = +ℤ_parts s (pos max_window) in
    let above = +ℤ_parts s (pos (suc max_window)) in ground arith
