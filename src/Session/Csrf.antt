-- ===== src/Session/Csrf.antt =====
-- runtime/session/csrf.go, less `SafeMethod`. HMAC-SHA256 is a parameter: a function of the key and
-- the message.
use nise_and_go.Common.{
  ◌≡◌, ◌≢◌, ◌↔◌, Bool, true, false, ◌||◌, [], ◌++◌, arith, ltb, if◌then◌else◌, length,
}
use nise_and_go.Common.Text.{
  Bytes, codes, str_eq, str_eq-eq, str_eq_refl, is_empty, is_empty-length, is_empty-ne, ne-is_empty,
}
use nise_and_go.Base64.{url, encode}
use nise_and_go.Base64.RoundTrip.{length-encode}
use nise_and_go.Session.Token.{Token, token_is_zero, max_token_bytes}
use nise_and_go.Session.Cookie.{CookiePolicy}

abbrev pub csrf_context : Bytes
csrf_context = codes "nise-csrf-v1"

abbrev pub csrf_cookie_suffix : Bytes
csrf_cookie_suffix = codes "_csrf"

module _ (hmac : Bytes → Bytes → Bytes) where
  unfoldable pub csrf_token : Token → Bytes
  csrf_token t = if token_is_zero t then [] else encode url (hmac t.value csrf_context)

  unfoldable pub verify_csrf : Token → Bytes → Bool
  verify_csrf t presented =
      if token_is_zero t || is_empty presented || ltb max_token_bytes (length presented)
      then false
      else if is_empty (csrf_token t)
      then false
      else str_eq (csrf_token t) presented

  -- Where the authentication code is 32 bytes long, a constructed token's CSRF value is the one text
  -- that is accepted for it, and for the zero token none is.
  pub verify_csrf_iff :
      ((key message : Bytes) → length (hmac key message) ≡ 32)
      → (t : Token) (presented : Bytes)
      → (verify_csrf t presented ≡ true) ↔ ((t.value ≢ []) × (presented ≡ csrf_token t))
  unfolding verify_csrf csrf_token
  verify_csrf_iff size t presented =
      let expected = encode url (hmac t.value csrf_context) in
      let long : length expected ≡ 43 =
        omega (arith, length-encode (hmac t.value csrf_context), size t.value csrf_context) in
      let filled = is_empty-length expected (omega arith) in
      (
        λ h. ground (arith, filled, is_empty-ne t.value, str_eq-eq expected presented),
        λ h. ground (arith, filled, ne-is_empty t.value h.0, str_eq_refl expected, long),
      )

-- `p.CSRFName()`
pub csrf_name : CookiePolicy → Bytes
csrf_name p = if is_empty p.name then [] else p.name ++ csrf_cookie_suffix
