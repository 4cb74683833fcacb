-- ===== src/Pagination/Cursor.antt =====
-- runtime/pagination/cursor.go: the codec. HMAC-SHA256 and encoding/json are parameters; the clock's
-- reading is a field of the codec.
pub mod RoundTrip
pub mod Authentic
use nise_and_go.Common.{
  ℕ, suc, ◌+◌, ◌*◌, ◌/◌, ◌≤◌, ◌≡◌, refl, Bool, true, false, ◌&&◌, ◌||◌, not, List, [], ◌∷◌, ◌++◌,
  Option, none, some, arith, ltb, ◌==◌, if◌then◌else◌, length,
}
use nise_and_go.Common.Int.{ℤ, pos, negsuc, ◌+ℤ◌, ◌-ℤ◌, ◌*ℤ◌, leb_ℤ}
use nise_and_go.Common.Text.{Bytes, codes, str_eq, is_empty, split, join}
use nise_and_go.Common.Result.{Result, ok, err, ◌>>=◌, ◌>>◌, fail_if, map_err}
use nise_and_go.Common.Clock.{Time, Duration, add_time, before, second}
use nise_and_go.Base64.{url, encode, decode_raw}
use nise_and_go.Pagination.Key.{Key, KeyRing, find, valid_key_id}
use nise_and_go.Pagination.Frame.{signed_message}
use nise_and_go.Pagination.Binding.{Binding, binding_is_zero}
use nise_and_go.Common.Utf8.{valid_utf8}

abbrev pub token_version : Bytes
token_version = codes "nc1"

abbrev pub max_token_bytes : ℕ
max_token_bytes = 4096

abbrev pub max_cursor_values : ℕ
max_cursor_values = 8

abbrev pub max_cursor_value_bytes : ℕ
max_cursor_value_bytes = 256

pub data CursorError : Type 0 where
  cursor_malformed cursor_version cursor_signature cursor_expired cursor_binding : CursorError
  cursor_direction binding_missing direction_unknown cursor_values ttl_not_positive : CursorError
  ring_missing payload_encoding : CursorError

-- Direction is a string type: a value outside the closed set can be written.
abbrev pub Direction : Type 0
Direction = Bytes

abbrev pub forward : Direction
forward = codes "forward"

abbrev pub backward : Direction
backward = codes "backward"

unfoldable pub direction_valid : Direction → Bool
direction_valid d = str_eq d forward || str_eq d backward

unfoldable pub parse_direction : Bytes → Result CursorError Direction
unfolding direction_valid
parse_direction raw = do fail_if (not (direction_valid raw)) direction_unknown; ok raw

pub record Cursor : Type 0 where
  pub direction : Direction
  pub values : List Bytes
  pub expires_at : Time

pub record Codec : Type 0 where
  pub ring : KeyRing
  pub ttl : Duration
  pub now : Time

-- `NewCodec`; a nil ring is `none`.
unfoldable pub new_codec : Option KeyRing → Duration → Time → Result CursorError Codec
new_codec none ttl now = err ring_missing
new_codec (some ring) ttl now = do
  fail_if (leb_ℤ ttl (pos 0)) ttl_not_positive
  ok (record { ring = ring; ttl = ttl; now = now })

pub record Payload : Type 0 where
  pub direction : Bytes
  pub binding : Bytes
  pub expires_at : ℤ
  pub values : List Bytes

-- Seconds between the zero time and the Unix epoch.
abbrev pub epoch : ℕ
epoch = 62_135_596_800

abbrev pub floor_seconds : ℤ → ℤ
floor_seconds (pos n) = pos (n / second)
floor_seconds (negsuc n) = negsuc (n / second)

-- `t.Unix()`
unfoldable pub unix : Time → ℤ
unix t = floor_seconds t -ℤ pos epoch

-- `time.Unix(s, 0)`, without the wrap-around of its seconds near the ends of int64. (Only a token that the
-- ring signed gets here.)
unfoldable pub of_unix : ℤ → Time
of_unix s = (s +ℤ pos epoch) *ℤ pos second

-- The loop of `checkValues`.
unfoldable pub check_each : List Bytes → Result CursorError (Unit {0})
check_each [] = ok tt
check_each (v ∷ vs) = do
  fail_if (ltb max_cursor_value_bytes (length v)) cursor_values
  fail_if (not (valid_utf8 v)) cursor_values
  check_each vs

unfoldable pub check_values : List Bytes → Result CursorError (Unit {0})
unfolding check_each
check_values vs = do
  fail_if (length vs == 0) cursor_values
  fail_if (ltb max_cursor_values (length vs)) cursor_values
  check_each vs

-- What the code uses of encoding/json: `Marshal`, one `Decode` of a strict decoder, which returns
-- the payload and what is left of the input, and whether what is left holds no further value.
pub record Json : Type 0 where
  pub marshal : Payload → Option Bytes
  pub decode_one : Bytes → Option (Payload × Bytes)
  pub at_end : Bytes → Bool

abbrev pub Hmac : Type 0
Hmac = Bytes → Bytes → Bytes

module _ (hmac : Hmac) where
  unfoldable pub sign : Key → Bytes → Bytes → Bytes → Bytes
  sign key version key_id body = hmac key.secret (signed_message version key_id body)

-- The moment that a codec writes into a cursor, in Unix seconds.
unfoldable pub expiry : Codec → ℤ
unfolding unix add_time
expiry c = unix (add_time c.now c.ttl)

-- A result whose error is reported as `e`.
abbrev pub or_fail {ℓ} : {A : Type ℓ} → Option A → CursorError → Result CursorError A
or_fail none e = err e
or_fail (some a) e = ok a

module _ (hmac : Hmac) where
  unfoldable pub token_of : Key → Bytes → Bytes
  token_of key body = join b'.' (
      token_version
      ∷ key.id
      ∷ encode url body
      ∷ encode url (sign hmac key token_version key.id body)
      ∷ [])

  -- The checks of `Decode` on the token itself, up to the authentication tag: the body it carries.
  unfoldable pub open_parts : KeyRing → List Bytes → Result CursorError Bytes
  open_parts ring (version ∷ key_id ∷ encoded_body ∷ encoded_tag ∷ []) = do
    fail_if (not (str_eq version token_version)) cursor_version
    fail_if (not (valid_key_id key_id)) cursor_malformed
    body ← or_fail (decode_raw url false encoded_body) cursor_malformed
    tag ← or_fail (decode_raw url false encoded_tag) cursor_malformed
    key ← or_fail (find ring key_id) cursor_signature
    fail_if (not (str_eq tag (sign hmac key version key_id body))) cursor_signature
    ok body
  open_parts ring _ = err cursor_malformed

module _ (json : Json) where
  -- The checks of `Decode` on the payload's form.
  unfoldable pub read_payload : Bytes → Result CursorError Payload
  read_payload body = do
    (decoded, rest) ← or_fail (json.decode_one body) cursor_malformed
    fail_if (not (json.at_end rest)) cursor_malformed
    direction ← map_err (λ _. cursor_malformed) (parse_direction decoded.direction)
    map_err (λ _. cursor_malformed) (check_values decoded.values)
    ok decoded

module _ (hmac : Hmac) (json : Json) where
  -- The method `Encode`.
  unfoldable pub encode_cursor : Codec → Binding → Direction → List Bytes → Result CursorError Bytes
  encode_cursor c binding direction values = do
    fail_if (binding_is_zero binding) binding_missing
    fail_if (not (direction_valid direction)) direction_unknown
    check_values values
    body ←
        or_fail
          (json.marshal (record {
            direction = direction;
            binding = binding.fingerprint;
            expires_at = expiry c;
            values = values;
          }))
          payload_encoding
    fail_if (ltb max_token_bytes (length (token_of hmac c.ring.active body))) cursor_values
    ok (token_of hmac c.ring.active body)

  -- The method `Decode`.
  unfoldable pub decode_cursor : Codec → Binding → Bytes → Result CursorError Cursor
  decode_cursor c binding token = do
    fail_if (binding_is_zero binding) binding_missing
    fail_if (is_empty token || ltb max_token_bytes (length token)) cursor_malformed
    body ← open_parts hmac c.ring (split b'.' token)
    decoded ← read_payload json body
    fail_if (not (before c.now (of_unix decoded.expires_at))) cursor_expired
    fail_if (not (str_eq decoded.binding binding.fingerprint)) cursor_binding
    ok (record {
      direction = decoded.direction;
      values = decoded.values;
      expires_at = of_unix decoded.expires_at;
    })
