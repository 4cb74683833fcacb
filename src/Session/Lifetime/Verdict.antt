-- ===== src/Session/Lifetime/Verdict.antt =====
-- The verdict on a stored session, with exact differences of time.
use nise_and_go.Common.{◌≡◌, ◌↔◌, ◌⊎◌, inl, inr, sym, ◌∙◌, true, false, arith, Bool-cases}
use nise_and_go.Common.Int.{◌+ℤ◌, ◌<ℤ◌, ◌≤ℤ◌, leb_ℤ, eqb_ℤ-eq}
use mathlib.Core.Bool.{false≢true}
use nise_and_go.Common.Clock.{Time, zero_time, sub_time, sub_time-leb}
use nise_and_go.Session.Lifetime.{Lifetime, Record, is_active}
use nise_and_go.Session.Lifetime.Policy.{IsUsable}

-- A deadline that was never set does not bind.
abbrev pub Unreached : Time → Time → Type 0
Unreached deadline now = (deadline ≡ zero_time) ⊎ (now <ℤ deadline)

idle_exact :
    (l : Lifetime) (r : Record) (now : Time)
    → IsUsable l
    → leb_ℤ l.idle (sub_time now r.last_seen_at) ≡ leb_ℤ (r.last_seen_at +ℤ l.idle) now
idle_exact l r now u =
    sub_time-leb now r.last_seen_at l.idle (omega (arith, u.idle_low, u.idle_high))
      (omega (arith, u.idle_low))

-- Under a usable policy a session may be used exactly when it is not revoked yet, its absolute
-- deadline (if set) lies ahead, and less than the idle window has passed since its last activity.
pub is_active_iff :
    (r : Record) (now : Time) (l : Lifetime)
    → IsUsable l
    → (is_active r now l ≡ true) ↔ (
        Unreached r.revoked_at now × Unreached r.expires_at now × (now <ℤ r.last_seen_at +ℤ l.idle))
unfolding is_active
is_active_iff r now l u = (
  λ h. ground (
    arith,
    idle_exact l r now u,
    eqb_ℤ-eq r.revoked_at zero_time,
    eqb_ℤ-eq r.expires_at zero_time,
  ),
  λ h. ground (arith, idle_exact l r now u),
)

-- Under a usable policy a session that may not be used at one time may not be used later.
pub ended_stays_ended :
    (r : Record) (now later : Time) (l : Lifetime)
    → IsUsable l
    → now ≤ℤ later
    → is_active r now l ≡ false
    → is_active r later l ≡ false
ended_stays_ended r now later l u h e = elim (Bool-cases (is_active r later l)) [
  | inr f ↦ f
  | inl f ↦
      let (a, b, c) = (is_active_iff r later l u).0 f in
      absurd (
        false≢true (
          sym e
          ∙ (is_active_iff r now l u).1 (
            unreached_earlier r.revoked_at a,
            unreached_earlier r.expires_at b,
            omega (arith, c),
          )))
]
  where
    unreached_earlier : (d : Time) → Unreached d later → Unreached d now
    unreached_earlier d (inl z) = inl z
    unreached_earlier d (inr p) = inr (omega arith)
