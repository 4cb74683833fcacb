-- ===== src/Common/Clock.antt =====
-- package time: an instant is the number of nanoseconds since the zero time, a duration is an
-- int64 of nanoseconds.
use nise_and_go.Common.{ℕ, ◌*◌, ◌≡◌, ◌∙◌, Bool, arith, if◌then◌else◌}
use nise_and_go.Common.Int.{
  ℤ, pos, negsuc, ◌+ℤ◌, ◌-ℤ◌, ◌<ℤ◌, ltb_ℤ, leb_ℤ, eqb_ℤ, max_int64, IsInt64, -ℤ_parts, +ℤ_parts,
}

abbrev pub Time : Type 0
Time = ℤ

abbrev pub Duration : Type 0
Duration = ℤ

abbrev pub zero_time : Time
zero_time = pos 0

abbrev pub is_zero : Time → Bool
is_zero t = eqb_ℤ t zero_time

-- `t.Before(u)`
abbrev pub before : Time → Time → Bool
before t u = ltb_ℤ t u

-- A difference that no duration can hold becomes the nearest one.
pub saturate : ℤ → Duration
saturate d =
    if ltb_ℤ (pos max_int64) d
    then pos max_int64
    else if ltb_ℤ d (negsuc max_int64)
    then negsuc max_int64
    else d

-- `t.Sub(u)`
unfoldable pub sub_time : Time → Time → Duration
unfolding saturate ◌-ℤ◌
sub_time t u = saturate (t -ℤ u)

-- `t.Add(d)`
unfoldable pub add_time : Time → Duration → Time
unfolding ◌+ℤ◌
add_time t d = t +ℤ d

-- A comparison with a duration in range is the comparison of the exact difference.
saturate-leb : (z d : ℤ) → IsInt64 d → negsuc max_int64 <ℤ d → leb_ℤ d (saturate z) ≡ leb_ℤ d z
unfolding saturate
saturate-leb z d h k = ground arith

diff-leb : (t u d : ℤ) → leb_ℤ d (t -ℤ u) ≡ leb_ℤ (u +ℤ d) t
diff-leb t u d = ground (arith, -ℤ_parts t u, +ℤ_parts u d)

pub sub_time-leb :
    (t u : Time) (d : Duration)
    → IsInt64 d
    → negsuc max_int64 <ℤ d
    → leb_ℤ d (sub_time t u) ≡ leb_ℤ (u +ℤ d) t
unfolding sub_time
sub_time-leb t u d h k = saturate-leb (t -ℤ u) d h k ∙ diff-leb t u d

abbrev pub second : ℕ
second = 1_000_000_000

abbrev pub minute : ℕ
minute = 60 * second

abbrev pub hour : ℕ
hour = 60 * minute
