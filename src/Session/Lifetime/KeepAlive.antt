-- ===== src/Session/Lifetime/KeepAlive.antt =====
-- A session in use, touched the way `NewLifetime` and `NeedsTouch` describe: each request that finds
-- the session active writes its time back when the recorded one is stale.
use nise_and_go.Common.{
  ◌≡◌, refl, inl, inr, Bool, true, false, ◌&&◌, List, [], ◌∷◌, arith, if◌then◌else◌, Bool-cases,
}
use nise_and_go.Common.Int.{◌+ℤ◌, ◌≤ℤ◌, ◌<ℤ◌, leb_ℤ, +ℤ_parts}
use nise_and_go.Common.Clock.{Time, zero_time, sub_time-leb}
use nise_and_go.Session.Lifetime.{Lifetime, Record, is_active, needs_touch}
use nise_and_go.Session.Lifetime.Policy.{IsUsable}
use nise_and_go.Session.Lifetime.Verdict.{is_active_iff}

-- A request: the session's record after it.
unfoldable pub visit : Lifetime → Record → Time → Record
unfolding is_active needs_touch
visit l r now =
    if is_active r now l && needs_touch l r.last_seen_at now
    then record r { last_seen_at = now }
    else r

-- Whether every request of a history finds the session active.
unfoldable pub all_served : Lifetime → Record → List Time → Bool
all_served l r [] = true
all_served l r (now ∷ later) = is_active r now l && all_served l (visit l r now) later

-- Times in order from `t`, each before `deadline`, where no gap and the touch interval together
-- exceed the idle window.
abbrev pub Steady : Lifetime → Time → Time → List Time → Type 0
Steady l deadline t [] = Unit {0}
Steady l deadline t (now ∷ later) =
    (t ≤ℤ now)
    × (now +ℤ l.touch_interval ≤ℤ t +ℤ l.idle)
    × (now <ℤ deadline)
    × Steady l deadline now later

touch_exact :
    (l : Lifetime) (seen now : Time)
    → IsUsable l
    → needs_touch l seen now ≡ leb_ℤ (seen +ℤ l.touch_interval) now
unfolding needs_touch
touch_exact l seen now u =
    sub_time-leb now seen l.touch_interval
      (omega (
        arith,
        u.idle_high,
        u.touch_inside,
        u.touch_positive,
        +ℤ_parts l.touch_interval l.touch_interval,
      ))
      (omega (arith, u.touch_positive))

module _ (l : Lifetime) (r : Record) (now : Time) where
  visited :
      is_active r now l ≡ true
      → needs_touch l r.last_seen_at now ≡ true
      → visit l r now ≡ record r { last_seen_at = now }
  unfolding visit
  visited a b = rw (a, b) refl

  kept : needs_touch l r.last_seen_at now ≡ false → visit l r now ≡ r
  unfolding visit
  kept b = ground (arith, b)

-- The recorded activity lags behind the last request by less than the touch interval.
served :
    (l : Lifetime) (r : Record) (t : Time) (times : List Time)
    → IsUsable l
    → r.revoked_at ≡ zero_time
    → t <ℤ r.last_seen_at +ℤ l.touch_interval
    → Steady l r.expires_at t times
    → all_served l r times ≡ true
unfolding all_served
served l r t [] u a lag s = refl
served l r t (now ∷ later) u a lag (s₁, s₂, s₃, s₄) =
    elim (Bool-cases (needs_touch l r.last_seen_at now)) [
      | inl stale ↦
          rw (now_active, visited l r now now_active stale)
            (served l (record r { last_seen_at = now }) now later u a
              (omega (arith, +ℤ_parts now l.touch_interval, u.touch_positive)) s₄)
      | inr recent ↦
          rw (now_active, kept l r now recent)
            (served l r now later u a (ground (arith, touch_exact l r.last_seen_at now u)) s₄)
    ]
  where
    now_active : is_active r now l ≡ true
    now_active = (is_active_iff r now l u).1 (
      inl a,
      inr s₃,
      omega (
        arith,
        +ℤ_parts now l.touch_interval,
        +ℤ_parts t l.idle,
        +ℤ_parts r.last_seen_at l.touch_interval,
        +ℤ_parts r.last_seen_at l.idle,
      ),
    )

-- A session that is not revoked and was touched within the touch interval is served on every request
-- of a history that stays before its absolute deadline, provided the policy is usable and no two
-- requests are further apart than the idle window less the touch interval.
pub all_served-Steady :
    (l : Lifetime) (r : Record) (t : Time) (times : List Time)
    → IsUsable l
    → r.revoked_at ≡ zero_time
    → t <ℤ r.last_seen_at +ℤ l.touch_interval
    → Steady l r.expires_at t times
    → all_served l r times ≡ true
all_served-Steady = served
