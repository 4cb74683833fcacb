-- ===== src/Pagination/Cursor/RoundTrip.antt =====
-- A cursor that one codec issued, read by another that knows the key.
use nise_and_go.Common.{
  subst, ◌≡◌, refl, inl, inr, true, false, List, [], ◌∷◌, some, arith, ltb, if◌then◌else◌, length,
  Bool-cases, Option-cases,
}
use nise_and_go.Common.Text.{
  Bytes, All, Lacks, all_of, str_eq, str_eq_refl, str_eq-eq, is_empty, split, join, split-join,
}
use nise_and_go.Common.Result.{ok, err}
use nise_and_go.Common.Clock.{before}
use nise_and_go.Common.Int.{IsInt64}
use nise_and_go.Common.Utf8.{valid_utf8}
use nise_and_go.Base64.{url, encode}
use nise_and_go.Base64.RoundTrip.{IsByte, decode_raw-encode, encode-lacks_dot}
use nise_and_go.Pagination.Key.{Key, KeyRing, find, valid_key_id, key_id_character}
use nise_and_go.Pagination.Binding.{Binding, binding_is_zero}
use nise_and_go.Pagination.Cursor.{
  backward, forward, valid_utf8, Codec, Json, Hmac, Payload, Direction, cursor_expired,
  cursor_binding, token_version, max_token_bytes, sign, token_of, open_parts, encode_cursor,
  decode_cursor, read_payload, check_values, parse_direction, direction_valid, expiry, of_unix,
}

key_id-Lacks_dot : (id : Bytes) → all_of key_id_character id ≡ true → Lacks b'.' id
unfolding all_of
key_id-Lacks_dot [] h = tt
key_id-Lacks_dot (c ∷ id) h = (ground arith, key_id-Lacks_dot id (ground arith))

valid_key_id-Lacks_dot : (id : Bytes) → valid_key_id id ≡ true → Lacks b'.' id
unfolding valid_key_id
valid_key_id-Lacks_dot id h = key_id-Lacks_dot id (ground arith)

module _ (hmac : Hmac) (mac_bytes : (k m : Bytes) → All IsByte (hmac k m)) where
  -- The parts of an issued token are the four that were joined.
  split-token_of :
      (key : Key) (body : Bytes)
      → valid_key_id key.id ≡ true
      → split b'.' (token_of hmac key body)
        ≡ token_version
          ∷ key.id
          ∷ encode url body
          ∷ encode url (sign hmac key token_version key.id body)
          ∷ []
  unfolding token_of
  split-token_of key body v =
      split-join b'.' _ (λ e. cc)
        (
          omega arith,
          (valid_key_id-Lacks_dot key.id v, (encode-lacks_dot body, (encode-lacks_dot _, tt))),
        )

  open_parts-token_of :
      (ring : KeyRing) (key : Key) (body : Bytes)
      → valid_key_id key.id ≡ true
      → find ring key.id ≡ some key
      → All IsByte body
      → open_parts hmac ring (split b'.' (token_of hmac key body)) ≡ ok body
  unfolding open_parts sign
  open_parts-token_of ring key body v known bytes =
      rw
        (
          split-token_of key body v,
          str_eq_refl token_version,
          v,
          decode_raw-encode false body bytes,
          decode_raw-encode false _ (mac_bytes key.secret _),
          known,
          str_eq_refl (sign hmac key token_version key.id body),
        )
        refl

-- What the code relies on in encoding/json: a payload of valid text and an int64 is marshalled to
-- bytes, and decoding those gives the payload back with nothing behind it.
abbrev pub IsFaithful : Json → Type 0
IsFaithful json =
    (p : Payload) (body : Bytes)
    → valid_utf8 p.direction ≡ true
    → valid_utf8 p.binding ≡ true
    → check_values p.values ≡ ok tt
    → IsInt64 p.expires_at
    → json.marshal p ≡ some body
    → All IsByte body
      × ((rest : Bytes) × (json.decode_one body ≡ some (p, rest)) × (json.at_end rest ≡ true))

abbrev pub payload_of : Codec → Binding → Direction → List Bytes → Payload
payload_of c b d vs = record {
  direction = d;
  binding = b.fingerprint;
  expires_at = expiry c;
  values = vs;
}

direction_utf8 : (d : Direction) → direction_valid d ≡ true → valid_utf8 d ≡ true
unfolding direction_valid valid_utf8
direction_utf8 d h = elim (Bool-cases (str_eq d forward)) [
  | inl e ↦ rw (str_eq-eq d forward e) refl
  | inr e ↦ rw (str_eq-eq d backward (ground (arith, e))) refl
]

module _ (hmac : Hmac) (json : Json) where
  -- What an issued cursor is made of.
  encode_cursor_sound :
      (c : Codec) (b : Binding) (d : Direction) (vs : List Bytes) {token : Bytes}
      → encode_cursor hmac json c b d vs ≡ ok token
      → (direction_valid d ≡ true)
        × (check_values vs ≡ ok tt)
        × ((body : Bytes) × (json.marshal (payload_of c b d vs) ≡ some body)
            × (token ≡ token_of hmac c.ring.active body)
            × (ltb max_token_bytes (length token) ≡ false))
  unfolding encode_cursor
  encode_cursor_sound c b d vs h = elim (Option-cases (json.marshal (payload_of c b d vs))) [
    | inl e ↦ ground (arith, e)
    | inr (body, e) ↦ (ground arith, ground arith, (body, e, ground (arith, e), ground (arith, e)))
  ]

  token-nonempty : (key : Key) (body : Bytes) → is_empty (token_of hmac key body) ≡ false
  unfolding token_of join
  token-nonempty key body = refl

  read_payload_lem :
      (p : Payload) (body rest : Bytes)
      → json.decode_one body ≡ some (p, rest)
      → json.at_end rest ≡ true
      → direction_valid p.direction ≡ true
      → check_values p.values ≡ ok tt
      → read_payload json body ≡ ok p
  unfolding read_payload parse_direction
  read_payload_lem p body rest e f g h = rw (e, f, g, h) refl

-- A cursor that `Encode` issued, presented with any bound query to a codec whose ring knows the
-- issuer's signing key (active or retired): before its expiry it decodes to the direction and
-- values it was issued for if the query is the same, and is refused as belonging to another query if
-- not; from its expiry on it is refused as expired. The authentication code returns bytes,
-- encoding/json is faithful on valid text, the fingerprint is valid text, and the expiry fits an
-- int64.
pub decode_cursor-encode_cursor :
    (hmac : Hmac) (json : Json)
    → ((k m : Bytes) → All IsByte (hmac k m))
    → IsFaithful json
    → (c d : Codec) (b b' : Binding) (dir : Direction) (vs : List Bytes) {token : Bytes}
    → valid_key_id c.ring.active.id ≡ true
    → find d.ring c.ring.active.id ≡ some c.ring.active
    → valid_utf8 b.fingerprint ≡ true
    → IsInt64 (expiry c)
    → binding_is_zero b' ≡ false
    → encode_cursor hmac json c b dir vs ≡ ok token
    → decode_cursor hmac json d b' token ≡ (
        if before d.now (of_unix (expiry c))
        then if str_eq b.fingerprint b'.fingerprint
          then ok (record { direction = dir; values = vs; expires_at = of_unix (expiry c) })
          else err cursor_binding
        else err cursor_expired)
unfolding decode_cursor
decode_cursor-encode_cursor hmac json mac_bytes faithful c d b b' dir vs {token} v known text fits
      bound h =
    let (dir_ok, values_ok, (body, marshalled, form, short)) =
      encode_cursor_sound hmac json c b dir vs {token = token} h in
    let (bytes, (rest, decoded, ended)) =
      faithful (payload_of c b dir vs) body (direction_utf8 dir dir_ok) text values_ok fits
        marshalled in
    let opened = open_parts-token_of hmac mac_bytes d.ring c.ring.active body v known bytes in
    let read =
      read_payload_lem hmac json (payload_of c b dir vs) body rest decoded ended dir_ok values_ok in
    let filled = token-nonempty hmac json c.ring.active body in
    let short' : ltb max_token_bytes (length (token_of hmac c.ring.active body)) ≡ false =
      subst (λ t. ltb max_token_bytes (length t) ≡ false) form short in
    rw form (rw (bound, filled, short', opened, read) (ground arith))
