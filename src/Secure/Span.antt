-- ===== src/Secure/Span.antt =====
-- Package time, as the security headers use it: the whole seconds of a duration by way of a float64,
-- and the text of a positive duration.
use nise_and_go.Common.{
  ℕ, zero, suc, ◌+◌, ◌-◌, ◌*◌, ◌/◌, ◌%◌, ◌^◌, ◌≡◌, refl, Bool, true, false, ◌||◌, not, [], ◌∷◌,
  ◌++◌, ltb, leb, ◌==◌, if◌then◌else◌,
}
use nise_and_go.Common.Int.{pos, negsuc}
use nise_and_go.Common.Clock.{Duration, second}
use nise_and_go.Common.Text.{Bytes, codes}
use nise_and_go.Common.Affix.{decimal}

-- The largest power of two that is at most `n`, up to the exponent `k`.
unfoldable pub power_below : ℕ → ℕ → ℕ
power_below zero n = 1
power_below (suc k) n = elim (leb (2 ^ suc k) n) [ true ↦ 2 ^ suc k | false ↦ power_below k n ]

-- `int64(d.Seconds())` for `d > 0`: `Seconds` adds the fraction of a second to the whole ones in a
-- float64, whose last bit stands for 2^-52 of the leading one. From 2^24 seconds on a fraction within
-- half of that below the next second is rounded up to it. The seconds of an int64 are below 2^34.
unfoldable pub whole_seconds : Duration → ℕ
unfolding power_below
whole_seconds (negsuc n) = 0
whole_seconds (pos n) =
    let sec = n / second in
    if leb ((second - n % second) * 2 ^ 53) (second * power_below 34 sec) then sec + 1 else sec

-- `fmtFrac`: the last `k` digits of `v` as a fraction without the zeros at its end, and the rest.
fraction : ℕ → ℕ → Bool → Bytes → Bytes × ℕ
fraction zero v print out = (if print then b'.' ∷ out else out, v)
fraction (suc k) v print out =
    let digit = v % 10 in
    let shown = print || not (digit == 0) in
    fraction k (v / 10) shown (if shown then (b'0' + digit) ∷ out else out)

in_unit : ℕ → ℕ → Bytes → Bytes
unfolding fraction
in_unit k v unit = let (out, whole) = fraction k v false unit in decimal whole ++ out

clock_text : ℕ → Bytes
unfolding fraction
clock_text v =
    let (out, whole) = fraction 9 v false (codes "s") in
    let seconds = decimal (whole % 60) ++ out in
    let minutes = whole / 60 in
    let hours = minutes / 60 in
    if minutes == 0
    then seconds
    else if hours == 0
    then decimal (minutes % 60) ++ (codes "m" ++ seconds)
    else decimal hours ++ (codes "h" ++ (decimal (minutes % 60) ++ (codes "m" ++ seconds)))

-- `d.String()` for `d > 0`.
unfoldable pub duration_text : Duration → Bytes
unfolding in_unit clock_text
duration_text (negsuc n) = []
duration_text (pos n) =
    if ltb n 1000
    then in_unit 0 n (codes "ns")
    else if ltb n 1_000_000
    then in_unit 3 n (0xc2 ∷ 0xb5 ∷ codes "s")
    else if ltb n second
    then in_unit 6 n (codes "ms")
    else clock_text n

rounded_up : whole_seconds (pos (31_536_000 * second - 1)) ≡ 31_536_000
unfolding whole_seconds
rounded_up = refl

rounded_down : whole_seconds (pos (16_777_216 * second - 1)) ≡ 16_777_215
unfolding whole_seconds
rounded_down = refl

text_runs : duration_text (pos (5_400 * second)) ≡ codes "1h30m0s"
unfolding duration_text decimal
text_runs = refl

text_fraction : duration_text (pos 1_500_000) ≡ codes "1.5ms"
unfolding duration_text decimal
text_fraction = refl
