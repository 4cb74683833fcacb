-- ===== src/Pagination/Examples.antt =====
-- Tests of runtime/pagination, and its theorems at concrete inputs.
use nise_and_go.Common.{
  sym, ap, subst, ◌≡◌, refl, Bool, true, false, List, [], ◌∷◌, some, none, arith, ◌&&◌,
  if◌then◌else◌,
}
use nise_and_go.Common.Int.{eqb_ℤ-eq, eqb_ℤ, pos, negsuc, wrap64, ◌+ℤ◌, ◌-ℤ◌, ◌*ℤ◌, ◌≤ℤ◌}
use nise_and_go.Common.Text.{Bytes, codes, All, str_eq, str_eq-eq, split, join}
use nise_and_go.Common.Keys.{contains}
use nise_and_go.Common.Result.{ok, err}
use nise_and_go.Common.Clock.{hour, minute, before}
use nise_and_go.Base64.{encode, decode_raw}
use nise_and_go.Base64.RoundTrip.{IsByte}
use nise_and_go.Pagination.Key.{Key, KeyRing, new_key_ring, find, valid_key_id}
use nise_and_go.Pagination.Frame.{signed_message-injective}
use nise_and_go.Pagination.Binding.{Binding, Values, values_of}
use nise_and_go.Pagination.Binding.Canonical.{SameQuery}
use nise_and_go.Common.Utf8.{valid_utf8}
use nise_and_go.Pagination.Cursor.{
  Codec, Hmac, Json, Payload, forward, check_values, cursor_binding, cursor_expired, encode_cursor,
  decode_cursor, expiry, of_unix, sign, token_of, direction_valid, open_parts, read_payload,
  parse_direction,
}
use nise_and_go.Pagination.Cursor.RoundTrip.{IsFaithful, decode_cursor-encode_cursor}
use nise_and_go.Pagination.Cursor.Authentic.{IsSigned, Claims, decode_cursor_authentic}
use nise_and_go.Pagination.Decimal.{decimal_value, digits_in, atoi}
use nise_and_go.Pagination.Request.{
  Limits, Page, Query, new_limits, limit_of, parse_limit, parse_page, single, limit_param, page_of,
}
use nise_and_go.Pagination.Report.{
  parse_bounded_parameter, page_param, Report, ReportLimits, Totals, invalid_page, bounded_of,
  new_report_limits, parse_report, offset, totals,
}

abbrev old_key : Key
old_key = record { id = codes "2025"; secret = codes "old" }

abbrev new_key : Key
new_key = record { id = codes "2026"; secret = codes "new" }

abbrev old_ring : KeyRing
old_ring = record { active = old_key; retired = [] }

-- After the rotation.
abbrev ring : KeyRing
ring = record { active = new_key; retired = old_key ∷ [] }

ring_made : new_key_ring new_key (old_key ∷ []) ≡ ok ring
unfolding new_key_ring contains str_eq
ring_made = refl

signed_message-injective_example :
    (codes "nc1" ≡ codes "nc1") × (codes "a" ≡ codes "a") × (codes "{}" ≡ codes "{}")
signed_message-injective_example =
    signed_message-injective (codes "nc1") (codes "nc1") (codes "a") (codes "a") (codes "{}")
      (codes "{}") (omega arith) (omega arith) (omega arith) (omega arith) (omega arith)
      (omega arith) refl

abbrev query : Values
query = (codes "state", codes "open" ∷ codes "late" ∷ []) ∷ (codes "owner", codes "me" ∷ []) ∷ []

abbrev query_again : Values
query_again =
    (codes "owner", codes "me" ∷ []) ∷ (codes "state", codes "open" ∷ codes "late" ∷ []) ∷ []

query-Same : SameQuery query query_again
unfolding contains values_of
query-Same k = ground (arith, str_eq-eq (codes "state") k, str_eq-eq (codes "owner") k)

-- An authentication code and a wire format for the tests: the format holds one payload.
abbrev mac : Hmac
mac key message = codes "tag"

abbrev bound : Binding
bound = record { fingerprint = codes "f1" }

abbrev issuer : Codec
issuer = record { ring = old_ring; ttl = pos hour; now = pos 0 }

abbrev reader : Codec
reader = record { ring = ring; ttl = pos hour; now = pos minute }

abbrev sample : Payload
sample = record {
  direction = forward;
  binding = codes "f1";
  expires_at = negsuc 62_135_593_199;
  values = codes "v7" ∷ [];
}

abbrev one_value : List Bytes → Bool
one_value [] = false
one_value (v ∷ []) = str_eq v (codes "v7")
one_value (v ∷ w ∷ vs) = false

abbrev is_sample : Payload → Bool
is_sample p =
    str_eq p.direction forward
    && (str_eq p.binding (codes "f1")
        && (eqb_ℤ p.expires_at (negsuc 62_135_593_199) && one_value p.values))

one_value-eq : (vs : List Bytes) → one_value vs ≡ true → vs ≡ codes "v7" ∷ []
one_value-eq [] h = cc
one_value-eq (v ∷ []) h = cc (str_eq-eq v (codes "v7") h)
one_value-eq (v ∷ w ∷ vs) h = cc

abbrev format : Json
format = record {
  marshal = λ p. if is_sample p then some (codes "{}") else none;
  decode_one = λ body. some (sample, []);
  at_end = λ rest. true;
}

is_sample-eq : (p : Payload) → is_sample p ≡ true → sample ≡ p
is_sample-eq p h =
    let d = str_eq-eq p.direction forward (ground arith) in
    let b = str_eq-eq p.binding (codes "f1") (ground arith) in
    let x = eqb_ℤ-eq p.expires_at (negsuc 62_135_593_199) (ground arith) in
    let v = one_value-eq p.values (ground arith) in
    λ i. record { direction = sym d i; binding = sym b i; expires_at = sym x i; values = sym v i }

format-IsFaithful : IsFaithful format
format-IsFaithful p body u₁ u₂ u₃ u₄ h =
    let is : is_sample p ≡ true = ground arith in
    let braces : codes "{}" ≡ body = ground (arith, is) in
    (
      subst (All IsByte) braces (omega arith),
      ([], ap (λ q. some (q, [])) (is_sample-eq p is), refl),
    )

abbrev issued : Bytes
issued = codes "nc1.2025.e30.dGFn"

issued_made : encode_cursor mac format issuer bound forward (codes "v7" ∷ []) ≡ ok issued
unfolding encode_cursor direction_valid check_values expiry of_unix token_of sign join encode str_eq
    valid_utf8 ◌+ℤ◌ ◌-ℤ◌
issued_made = refl

mac-bytes : (k m : Bytes) → All IsByte (mac k m)
mac-bytes k m = omega arith

decode_cursor-encode_cursor_example : decode_cursor mac format reader bound issued ≡ (
    if before reader.now (of_unix (expiry issuer))
    then if str_eq bound.fingerprint bound.fingerprint
      then ok (record {
        direction = forward;
        values = codes "v7" ∷ [];
        expires_at = of_unix (expiry issuer);
      })
      else err cursor_binding
    else err cursor_expired)
unfolding find str_eq valid_key_id valid_utf8 expiry ◌+ℤ◌ ◌-ℤ◌
decode_cursor-encode_cursor_example =
    decode_cursor-encode_cursor mac format mac-bytes format-IsFaithful issuer reader bound bound
      forward (codes "v7" ∷ []) {token = issued} refl refl refl (omega arith) refl issued_made

decoded :
    decode_cursor mac format reader bound issued
    ≡ ok (record { direction = forward; values = codes "v7" ∷ []; expires_at = pos hour })
unfolding decode_cursor open_parts read_payload parse_direction check_values find valid_key_id sign
    split decode_raw str_eq valid_utf8 of_unix ◌+ℤ◌ ◌*ℤ◌
decoded = refl

decode_cursor_authentic_example :
    (body : Bytes) × IsSigned mac reader.ring issued body
    × Claims format reader bound body
        (record { direction = forward; values = codes "v7" ∷ []; expires_at = pos hour })
decode_cursor_authentic_example = decode_cursor_authentic mac format reader bound issued decoded

abbrev limits : Limits
limits = record { default_size = pos 50; max_size = pos 200 }

abbrev asks : Query
asks name = if str_eq name limit_param then some (codes "25" ∷ []) else none

abbrev first_page : Page
first_page = record { limit = pos 25; direction = forward; cursor = none }

first_page_made : parse_page mac format reader bound asks limits ≡ ok first_page
unfolding parse_page parse_limit single decimal_value str_eq atoi
first_page_made = refl

parse_page_sound_example :
    (pos 1 ≤ℤ first_page.limit)
    × (first_page.limit ≤ℤ limits.max_size)
    × nise_and_go.Pagination.Request.Accepted.ReadFrom mac format reader bound asks first_page
parse_page_sound_example =
    nise_and_go.Pagination.Request.Accepted.parse_page_sound mac format reader bound asks limits
      (omega arith) first_page_made

abbrev report_limits : ReportLimits
report_limits = record { default_size = pos 20; max_size = pos 100; max_offset = pos 1000 }

report_limits_made : new_report_limits (pos 20) (pos 100) (pos 1000) ≡ ok report_limits
unfolding new_report_limits
report_limits_made = refl

abbrev asks_page : Query
asks_page name = if str_eq name page_param then some (codes "3" ∷ []) else none

abbrev third : Report
third = record { number = pos 3; size = pos 20 }

third_made : parse_report asks_page report_limits ≡ ok third
unfolding parse_report parse_bounded_parameter single decimal_value atoi digits_in str_eq offset
    wrap64 ◌-ℤ◌ ◌*ℤ◌
third_made = refl

parse_report_sound_example : offset third ≡ pos 40
parse_report_sound_example =
    (nise_and_go.Pagination.Report.Accepted.parse_report_sound asks_page (pos 20) (pos 100)
      (pos 1000) report_limits_made third_made).3
