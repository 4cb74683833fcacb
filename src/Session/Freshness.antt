-- ===== src/Session/Freshness.antt =====
-- runtime/session/freshness.go.
use nise_and_go.Common.{
  ◌*◌, ◌≡◌, Bool, false, ◌&&◌, ◌||◌, not, arith, if◌then◌else◌, Option, none, some,
}
use nise_and_go.Common.Int.{pos, ◌≤ℤ◌, ◌<ℤ◌, ltb_ℤ, leb_ℤ, eqb_ℤ}
use nise_and_go.Common.Clock.{
  Time, Duration, zero_time, is_zero, before, sub_time, add_time, second, hour, sub_time-leb,
}
use nise_and_go.Session.Lifetime.{Record}

abbrev pub min_freshness : Duration
min_freshness = pos (30 * second)

abbrev pub max_freshness : Duration
max_freshness = pos (24 * hour)

pub record Freshness : Type 0 where
  pub window : Duration

-- `Freshness{}`
abbrev pub zero_freshness : Freshness
zero_freshness = record { window = pos 0 }

-- `NewFreshness`; `none` is `ErrFreshness`.
unfoldable pub new_freshness : Duration → Option Freshness
new_freshness w =
    if ltb_ℤ w min_freshness || ltb_ℤ max_freshness w then none else some (record { window = w })

abbrev pub freshness_is_zero : Freshness → Bool
freshness_is_zero f = eqb_ℤ f.window (pos 0)

unfoldable pub satisfied : Freshness → Time → Time → Bool
satisfied f proven_at now =
    if freshness_is_zero f || is_zero proven_at
    then false
    else let age = sub_time now proven_at in
      let age' = if ltb_ℤ age (pos 0) then pos 0 else age in ltb_ℤ age' f.window

unfoldable pub stale_at : Freshness → Time → Time
unfolding add_time
stale_at f proven_at =
    if freshness_is_zero f || is_zero proven_at then zero_time else add_time proven_at f.window

-- `r.ProvenWithin(now, freshness)`
unfoldable pub proven_within : Record → Time → Freshness → Bool
unfolding satisfied
proven_within r now f = satisfied f r.proven_at now

-- The window of a policy from `NewFreshness`.
abbrev pub IsBounded : Freshness → Type 0
IsBounded f = (min_freshness ≤ℤ f.window) × (f.window ≤ℤ max_freshness)

pub new_freshness-IsBounded :
    (w : Duration) {f : Freshness} → new_freshness w ≡ some f → IsBounded f
unfolding new_freshness
new_freshness-IsBounded w h = ground arith

age_exact :
    (w : Duration) (age : Duration)
    → pos 0 <ℤ w
    → ltb_ℤ (if ltb_ℤ age (pos 0) then pos 0 else age) w ≡ not (leb_ℤ w age)
age_exact w age h = ground arith

-- The two ways to ask whether a proof is still good agree: for a window from `NewFreshness`, a proof
-- satisfies it now exactly when a proof was given and the moment `StaleAt` names lies ahead. A proof
-- dated after now counts as current.
pub satisfied-stale_at :
    (w : Duration) {f : Freshness} (proven_at now : Time)
    → new_freshness w ≡ some f
    → satisfied f proven_at now ≡ (not (is_zero proven_at) && before now (stale_at f proven_at))
unfolding satisfied stale_at
satisfied-stale_at w {f} proven_at now h =
    let b = new_freshness-IsBounded w h in
    ground (
      arith,
      age_exact f.window (sub_time now proven_at) (omega arith),
      sub_time-leb now proven_at f.window (omega arith) (omega arith),
      b,
    )
