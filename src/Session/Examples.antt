-- ===== src/Session/Examples.antt =====
-- Tests of runtime/session, and its theorems at concrete inputs.
use nise_and_go.Common.{◌+◌, ◌*◌, ◌^◌, ◌≡◌, ◌↔◌, refl, true, false, List, [], ◌∷◌, some, arith}
use nise_and_go.Common.Int.{pos, wrap64, ◌+ℤ◌, ◌*ℤ◌, ◌<ℤ◌}
use nise_and_go.Common.Text.{Bytes, codes, all_of}
use nise_and_go.Common.Result.{ok}
use nise_and_go.Common.Clock.{Time, minute, hour, sub_time, zero_time}
use nise_and_go.Session.Lifetime.{
  Lifetime, Record, new_lifetime, is_active, default_idle, default_absolute, default_touch_interval,
}
use nise_and_go.Session.Lifetime.Policy.{
  IsUsable, of_arguments, new_lifetime_iff, new_lifetime_overflow,
}
use nise_and_go.Session.Lifetime.Verdict.{Unreached, is_active_iff, ended_stays_ended}
use nise_and_go.Session.Lifetime.KeepAlive.{all_served, Steady, all_served-Steady}
use nise_and_go.Session.Freshness.{Freshness, new_freshness}
use nise_and_go.Session.Token.{Token, new_token, parse}
use nise_and_go.Session.Token.Format.{minted, parse-new_token}
use nise_and_go.Session.Cookie.{
  CookiePolicy, SameSite, new_cookie_policy, validate, with_cookie_name, has_prefix,
}

abbrev shipped : Lifetime
shipped = of_arguments default_idle default_absolute default_touch_interval

shipped-IsUsable : IsUsable shipped
unfolding ◌+ℤ◌
shipped-IsUsable = record {
  idle_low = omega arith;
  idle_high = omega arith;
  absolute_high = omega arith;
  idle_within = omega arith;
  touch_positive = omega arith;
  touch_inside = omega arith;
}

default_accepted : new_lifetime default_idle default_absolute default_touch_interval ≡ ok shipped
unfolding new_lifetime wrap64 ◌*ℤ◌
default_accepted = refl

new_lifetime_iff_example :
    (new_lifetime default_idle default_absolute default_touch_interval ≡ ok shipped)
    ↔ IsUsable shipped
new_lifetime_iff_example =
    new_lifetime_iff default_idle default_absolute default_touch_interval (omega arith)

new_lifetime_overflow_example :
    (new_lifetime default_idle default_absolute (pos (2 ^ 62))
      ≡ ok (of_arguments default_idle default_absolute (pos (2 ^ 62))))
    × ¬ IsUsable (of_arguments default_idle default_absolute (pos (2 ^ 62)))
new_lifetime_overflow_example =
    new_lifetime_overflow default_idle default_absolute (2 ^ 62) (omega arith) (omega arith)
      (omega arith) (omega arith) (omega arith) (omega arith)

-- A session issued an hour after the zero time and last seen ten minutes later.
abbrev session : Record
session = record {
  id = codes "s";
  user_id = codes "u";
  created_at = pos hour;
  last_seen_at = pos (hour + 10 * minute);
  expires_at = pos (800 * hour);
  revoked_at = zero_time;
  proven_at = pos hour;
}

is_active_iff_example : (is_active session (pos (2 * hour)) shipped ≡ true) ↔ (
    Unreached session.revoked_at (pos (2 * hour))
    × Unreached session.expires_at (pos (2 * hour))
    × (pos (2 * hour) <ℤ session.last_seen_at +ℤ shipped.idle))
is_active_iff_example = is_active_iff session (pos (2 * hour)) shipped shipped-IsUsable

unused : is_active session (pos (14 * hour)) shipped ≡ false
unfolding is_active sub_time
unused = refl

ended_stays_ended_example : is_active session (pos (20 * hour)) shipped ≡ false
ended_stays_ended_example =
    ended_stays_ended session (pos (14 * hour)) (pos (20 * hour)) shipped shipped-IsUsable
      (omega arith) unused

abbrev visits : List Time
visits = pos (12 * hour) ∷ pos (23 * hour) ∷ pos (34 * hour) ∷ []

visits-Steady : Steady shipped session.expires_at (pos (hour + 11 * minute)) visits
unfolding ◌+ℤ◌
visits-Steady = omega arith

all_served-Steady_example : all_served shipped session visits ≡ true
unfolding ◌+ℤ◌
all_served-Steady_example =
    all_served-Steady shipped session (pos (hour + 11 * minute)) visits shipped-IsUsable refl
      (omega arith) visits-Steady

abbrev quarter : Freshness
quarter = record { window = pos (15 * minute) }

quarter_made : new_freshness (pos (15 * minute)) ≡ some quarter
unfolding new_freshness
quarter_made = refl

abbrev secret : Bytes
secret = codes "0123456789abcdef0123456789ABCDEF"

abbrev secret_token : Token
secret_token = record { value = minted secret }

parse-new_token_example :
    (new_token (some secret) ≡ some secret_token) × (parse (minted secret) ≡ some secret_token)
parse-new_token_example = parse-new_token secret (omega arith) (omega arith)

minted_parses : parse (minted secret) ≡ some secret_token
minted_parses = (parse-new_token secret (omega arith) (omega arith)).1

abbrev keyless : Bytes → Bytes → Bytes
keyless key message = secret

abbrev named : CookiePolicy
named = record { name = codes "__Host-app"; secure = true; same_site = SameSite.lax }

named_made : new_cookie_policy true (with_cookie_name (codes "__Host-app") ∷ []) ≡ ok named
unfolding new_cookie_policy validate has_prefix all_of
named_made = refl
