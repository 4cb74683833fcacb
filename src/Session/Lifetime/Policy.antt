-- ===== src/Session/Lifetime/Policy.antt =====
-- What `NewLifetime` accepts.
use nise_and_go.Common.{ℕ, ◌+◌, ◌^◌, ◌≤◌, ◌<◌, ◌≡◌, ◌↔◌, arith}
use nise_and_go.Common.Int.{pos, negsuc, ◌+ℤ◌, ◌*ℤ◌, ◌≤ℤ◌, ◌<ℤ◌, wrap64, max_int64, +ℤ_parts}
use nise_and_go.Common.Result.{ok}
use nise_and_go.Common.Clock.{Duration}
use nise_and_go.Session.Lifetime.{Lifetime, new_lifetime, doubled, min_idle, max_idle, max_absolute}

-- A policy under which a session in use is not logged out.
pub record IsUsable (l : Lifetime) : Type 0 where
  pub idle_low : min_idle ≤ℤ l.idle
  pub idle_high : l.idle ≤ℤ max_idle
  pub absolute_high : l.absolute ≤ℤ max_absolute
  pub idle_within : l.idle ≤ℤ l.absolute
  pub touch_positive : pos 0 <ℤ l.touch_interval
  pub touch_inside : l.touch_interval +ℤ l.touch_interval ≤ℤ l.idle

abbrev pub of_arguments : Duration → Duration → Duration → Lifetime
of_arguments i a t = record { idle = i; absolute = a; touch_interval = t }

-- Where the product fits an int64 it is exact.
doubled-small : (n : ℕ) → n < 2 ^ 62 → doubled (pos n) ≡ pos (n + n)
unfolding wrap64 ◌*ℤ◌
doubled-small n h = ground arith

-- Where it does not, the product of a positive interval is negative.
doubled-large : (n : ℕ) → 2 ^ 62 ≤ n → n ≤ max_int64 → doubled (pos n) <ℤ pos 0
unfolding wrap64 ◌*ℤ◌
doubled-large n h k = ground arith

new_lifetime-small :
    (i a : Duration) (n : ℕ)
    → n < 2 ^ 62
    → new_lifetime i a (pos n) ≡ ok (of_arguments i a (pos n))
    → IsUsable (of_arguments i a (pos n))
unfolding new_lifetime
new_lifetime-small i a n h e = ground (arith, doubled-small n h, +ℤ_parts (pos n) (pos n))

small-new_lifetime :
    (i a : Duration) (n : ℕ)
    → n < 2 ^ 62
    → IsUsable (of_arguments i a (pos n))
    → new_lifetime i a (pos n) ≡ ok (of_arguments i a (pos n))
unfolding new_lifetime
small-new_lifetime i a n h u = ground (arith, doubled-small n h, +ℤ_parts (pos n) (pos n))

new_lifetime-negative :
    (i a : Duration) (n : ℕ) (l : Lifetime) → ¬ (new_lifetime i a (negsuc n) ≡ ok l)
unfolding new_lifetime
new_lifetime-negative i a n l h = ground arith

-- For a touch interval below 2^62 nanoseconds (146 years), `NewLifetime` accepts its three arguments
-- exactly when they form a usable policy: idle and absolute lie in their bounds, idle does not
-- exceed absolute, and the interval is positive and at most half of idle. The policy is then those
-- three arguments.
pub new_lifetime_iff :
    (i a t : Duration)
    → t <ℤ pos (2 ^ 62)
    → (new_lifetime i a t ≡ ok (of_arguments i a t)) ↔ IsUsable (of_arguments i a t)
new_lifetime_iff i a (pos n) h =
    (new_lifetime-small i a n (omega arith), small-new_lifetime i a n (omega arith))
new_lifetime_iff i a (negsuc n) h =
    (λ e. absurd (new_lifetime-negative i a n _ e), λ u. absurd (omega (arith, u.touch_positive)))

-- Every result of `NewLifetime` is the policy of its arguments.
pub new_lifetime-of_arguments :
    (i a t : Duration) {l : Lifetime} → new_lifetime i a t ≡ ok l → l ≡ of_arguments i a t
unfolding new_lifetime
new_lifetime-of_arguments i a t h = ground arith

-- A touch interval of 2^62 nanoseconds or more that an int64 can hold is accepted with every idle
-- and absolute window in bounds, though twice the interval exceeds the idle window: the product
-- `touchInterval*2` wraps to a negative number.
pub new_lifetime_overflow :
    (i a : Duration) (n : ℕ)
    → min_idle ≤ℤ i
    → i ≤ℤ max_idle
    → i ≤ℤ a
    → a ≤ℤ max_absolute
    → 2 ^ 62 ≤ n
    → n ≤ max_int64
    → (new_lifetime i a (pos n) ≡ ok (of_arguments i a (pos n)))
      × ¬ IsUsable (of_arguments i a (pos n))
unfolding new_lifetime
new_lifetime_overflow i a n h₁ h₂ h₃ h₄ h₅ h₆ = (
  ground (arith, doubled-large n h₅ h₆),
  λ u. omega (arith, u.touch_inside, u.idle_high, +ℤ_parts (pos n) (pos n)),
)
