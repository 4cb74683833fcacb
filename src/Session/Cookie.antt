-- ===== src/Session/Cookie.antt =====
-- runtime/session/cookie.go.
use nise_and_go.Common.{
  refl, arith, ◌≤◌, ◌≡◌, ℕ, Bool, true, false, ◌&&◌, ◌||◌, not, List, [], ◌∷◌, ltb, ◌==◌,
  if◌then◌else◌, length,
}
use nise_and_go.Common.Text.{Bytes, codes, between, all_of}
use nise_and_go.Common.Result.{>>=-eq-ok, Result, ok, ◌>>◌, fail_if}

abbrev pub host_prefix : Bytes
host_prefix = codes "__Host-"

abbrev pub default_cookie_name : Bytes
default_cookie_name = codes "__Host-session"

abbrev pub insecure_cookie_name : Bytes
insecure_cookie_name = codes "session"

abbrev pub max_cookie_name_bytes : ℕ
max_cookie_name_bytes = 64

-- http.SameSite.
pub data SameSite : Type 0 where
  default_mode lax strict none_mode : SameSite

pub data CookieError : Type 0 where
  name_length name_character only_prefix secure_without_prefix prefix_without_secure : CookieError

pub record CookiePolicy : Type 0 where
  pub name : Bytes
  pub secure : Bool
  pub same_site : SameSite

-- `WithCookieName(name)`, the only option there is; it never fails.
pub data CookieOption : Type 0 where
  with_cookie_name : Bytes → CookieOption

pub apply_option : CookieOption → CookiePolicy → CookiePolicy
apply_option (with_cookie_name n) p = record p { name = n }

pub apply_options : List CookieOption → CookiePolicy → CookiePolicy
unfolding apply_option
apply_options [] p = p
apply_options (o ∷ os) p = apply_options os (apply_option o p)

-- `strings.HasPrefix(s, prefix)`
unfoldable pub has_prefix : Bytes → Bytes → Bool
has_prefix s [] = true
has_prefix [] (p ∷ ps) = false
has_prefix (c ∷ s) (p ∷ ps) = c == p && has_prefix s ps

abbrev pub cookie_character : ℕ → Bool
cookie_character c =
    between b'a' b'z' c || between b'A' b'Z' c || between b'0' b'9' c || c == b'_' || c == b'-'

unfoldable pub validate : CookiePolicy → Result CookieError (Unit {0})
validate p = do
  fail_if (ltb (length p.name) 1 || ltb max_cookie_name_bytes (length p.name)) name_length
  fail_if (not (all_of cookie_character p.name)) name_character
  fail_if (has_prefix p.name host_prefix && length p.name == length host_prefix) only_prefix
  fail_if (p.secure && not (has_prefix p.name host_prefix)) secure_without_prefix
  fail_if (not p.secure && has_prefix p.name host_prefix) prefix_without_secure

unfoldable pub new_cookie_policy : Bool → List CookieOption → Result CookieError CookiePolicy
unfolding apply_options
new_cookie_policy secure_transport options = do
  let name = if secure_transport then default_cookie_name else insecure_cookie_name
  let policy =
      apply_options options (record { name = name; secure = secure_transport; same_site = lax })
  validate policy
  ok policy

-- `p.Hardened()`
unfoldable pub hardened : CookiePolicy → Bool
hardened p = p.secure && has_prefix p.name host_prefix

apply_options-kept :
    (options : List CookieOption) (p : CookiePolicy)
    → ((apply_options options p).secure ≡ p.secure)
      × ((apply_options options p).same_site ≡ p.same_site)
unfolding apply_options
apply_options-kept [] p = (refl, refl)
apply_options-kept (with_cookie_name n ∷ os) p = apply_options-kept os (record p { name = n })

validate_sound :
    (p : CookiePolicy)
    → validate p ≡ ok tt
    → (1 ≤ length p.name)
      × (length p.name ≤ max_cookie_name_bytes)
      × (all_of cookie_character p.name ≡ true)
      × (has_prefix p.name host_prefix ≡ p.secure)
      × (hardened p ≡ p.secure)
unfolding validate hardened
validate_sound p h = ground arith

-- Every policy that `NewCookiePolicy` returns has a name of 1 to 64 permitted characters that is not
-- the bare prefix, is Lax, is secure exactly when asked to be, and is hardened exactly when it is
-- secure: the prefix is neither missing from a secure cookie nor put on an insecure one.
pub new_cookie_policy_sound :
    (secure_transport : Bool) (options : List CookieOption) {p : CookiePolicy}
    → new_cookie_policy secure_transport options ≡ ok p
    → (1 ≤ length p.name)
      × (length p.name ≤ max_cookie_name_bytes)
      × (all_of cookie_character p.name ≡ true)
      × (p.same_site ≡ lax)
      × (p.secure ≡ secure_transport)
      × (has_prefix p.name host_prefix ≡ p.secure)
      × (hardened p ≡ p.secure)
unfolding new_cookie_policy
new_cookie_policy_sound b options {p} h =
    let name = if b then default_cookie_name else insecure_cookie_name in
    let start : CookiePolicy = record { name = name; secure = b; same_site = lax } in
    let (is_secure, is_lax) = apply_options-kept options start in
    let (_, valid, same) = >>=-eq-ok (validate (apply_options options start)) _ h in
    ground (arith, is_secure, is_lax, validate_sound (apply_options options start), same, valid)
