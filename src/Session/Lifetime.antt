-- ===== src/Session/Lifetime.antt =====
-- runtime/session/lifetime.go.
pub mod Policy
pub mod Verdict
pub mod KeepAlive
use nise_and_go.Common.Text.{Bytes}
use nise_and_go.Common.{◌*◌, Bool, true, false, ◌&&◌, ◌||◌, not, if◌then◌else◌}
use nise_and_go.Common.Int.{pos, ◌*ℤ◌, ltb_ℤ, leb_ℤ, eqb_ℤ, wrap64}
use nise_and_go.Common.Result.{Result, ok, ◌>>◌, fail_if}
use nise_and_go.Common.Clock.{Time, Duration, is_zero, before, sub_time, add_time, minute, hour}

abbrev pub min_idle : Duration
min_idle = pos minute

abbrev pub max_idle : Duration
max_idle = pos (30 * 24 * hour)

abbrev pub min_absolute : Duration
min_absolute = pos minute

abbrev pub max_absolute : Duration
max_absolute = pos (365 * 24 * hour)

abbrev pub default_idle : Duration
default_idle = pos (12 * hour)

abbrev pub default_absolute : Duration
default_absolute = pos (30 * 24 * hour)

abbrev pub default_touch_interval : Duration
default_touch_interval = pos (5 * minute)

-- The five rejections of `NewLifetime`, all of them `ErrLifetime`.
pub data LifetimeError : Type 0 where
  idle_bounds absolute_bounds idle_exceeds_absolute touch_not_positive touch_exceeds_half_idle :
      LifetimeError

pub data State : Type 0 where
  active revoked expired idle : State

pub record Lifetime : Type 0 where
  pub idle : Duration
  pub absolute : Duration
  pub touch_interval : Duration

-- `Lifetime{}`
abbrev pub zero_lifetime : Lifetime
zero_lifetime = record { idle = pos 0; absolute = pos 0; touch_interval = pos 0 }

-- `touchInterval*2` is an int64 product.
abbrev pub doubled : Duration → Duration
doubled d = wrap64 (d *ℤ pos 2)

unfoldable pub new_lifetime : Duration → Duration → Duration → Result LifetimeError Lifetime
new_lifetime i a t = do
  fail_if (ltb_ℤ i min_idle || ltb_ℤ max_idle i) idle_bounds
  fail_if (ltb_ℤ a min_absolute || ltb_ℤ max_absolute a) absolute_bounds
  fail_if (ltb_ℤ a i) idle_exceeds_absolute
  fail_if (leb_ℤ t (pos 0)) touch_not_positive
  fail_if (ltb_ℤ i (doubled t)) touch_exceeds_half_idle
  ok (record { idle = i; absolute = a; touch_interval = t })

unfoldable pub default_lifetime : Lifetime
default_lifetime = record {
  idle = default_idle;
  absolute = default_absolute;
  touch_interval = default_touch_interval;
}

-- `l.IsZero()`
abbrev pub lifetime_is_zero : Lifetime → Bool
lifetime_is_zero l = eqb_ℤ l.idle (pos 0)

-- `l.ExpiresAt(issuedAt)`; the conversion to UTC keeps the instant.
unfoldable pub expires_at : Lifetime → Time → Time
unfolding add_time
expires_at l issued_at = add_time issued_at l.absolute

unfoldable pub needs_touch : Lifetime → Time → Time → Bool
needs_touch l last_seen_at now = leb_ℤ l.touch_interval (sub_time now last_seen_at)

pub record Record : Type 0 where
  pub id : Bytes
  pub user_id : Bytes
  pub created_at : Time
  pub last_seen_at : Time
  pub expires_at : Time
  pub revoked_at : Time
  pub proven_at : Time

unfoldable pub evaluate : Record → Time → Lifetime → State
evaluate r now l =
    if not (is_zero r.revoked_at) && not (before now r.revoked_at)
    then revoked
    else if not (is_zero r.expires_at) && not (before now r.expires_at)
    then expired
    else if lifetime_is_zero l
    then idle
    else if leb_ℤ l.idle (sub_time now r.last_seen_at)
    then idle
    else active

abbrev pub is : State → State → Bool
is active active = true
is revoked revoked = true
is expired expired = true
is idle idle = true
is _ _ = false

-- `r.IsActive(now, lifetime)`
unfoldable pub is_active : Record → Time → Lifetime → Bool
unfolding evaluate
is_active r now l = is (evaluate r now l) active
