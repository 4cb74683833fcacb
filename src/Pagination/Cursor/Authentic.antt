-- ===== src/Pagination/Cursor/Authentic.antt =====
-- What an accepted cursor proves.
use nise_and_go.Common.{
  ◌≡◌, refl, ap, ◌∙◌, inl, inr, true, false, List, [], ◌∷◌, some, arith, Option-cases,
}
use nise_and_go.Common.Text.{Bytes, str_eq-eq, split}
use nise_and_go.Common.Result.{ok, Result-cases}
use nise_and_go.Common.Clock.{before}
use nise_and_go.Base64.{url, decode_raw}
use nise_and_go.Pagination.Key.{Key, KeyRing, find}
use nise_and_go.Pagination.Binding.{Binding}
use nise_and_go.Pagination.Cursor.{
  Codec, Cursor, Json, Hmac, Payload, token_version, sign, open_parts, decode_cursor, read_payload,
  of_unix,
}

-- The body was authenticated under a key of the ring, by the tag that the token carries.
pub record IsSigned (hmac : Hmac) (ring : KeyRing) (token body : Bytes) : Type 0 where
  key : Key
  key_id : Bytes
  encoded_body : Bytes
  encoded_tag : Bytes
  known : find ring key_id ≡ some key
  parts : split b'.' token ≡ token_version ∷ key_id ∷ encoded_body ∷ encoded_tag ∷ []
  body_decodes : decode_raw url false encoded_body ≡ some body
  tag_decodes : decode_raw url false encoded_tag ≡ some (sign hmac key token_version key_id body)

open_parts_four :
    (hmac : Hmac) (ring : KeyRing) (v i eb et : Bytes) {body : Bytes}
    → open_parts hmac ring (v ∷ i ∷ eb ∷ et ∷ []) ≡ ok body
    → (v ≡ token_version)
      × (decode_raw url false eb ≡ some body)
      × ((key : Key) × (find ring i ≡ some key)
          × (decode_raw url false et ≡ some (sign hmac key token_version i body)))
unfolding open_parts
open_parts_four hmac ring v i eb et {body} h = elim (Option-cases (decode_raw url false eb)) [
  | inl e ↦ ground (arith, e)
  | inr (b, e) ↦ elim (Option-cases (decode_raw url false et)) [
    | inl f ↦ ground (arith, e, f)
    | inr (t, f) ↦ elim (Option-cases (find ring i)) [
      | inl g ↦ ground (arith, e, f, g)
      | inr (key, g) ↦
          let version : v ≡ token_version = ground (arith, str_eq-eq v token_version) in
          let same : b ≡ body = ground (arith, e, f, g) in
          let tag : t ≡ sign hmac key v i b =
            ground (arith, e, f, g, str_eq-eq t (sign hmac key v i b)) in
          (version, e ∙ ap some same, (key, g, f ∙ cc (tag, version, same)))
    ]
  ]
]

open_parts-IsSigned :
    (hmac : Hmac) (ring : KeyRing) (token : Bytes) (parts : List Bytes) {body : Bytes}
    → split b'.' token ≡ parts
    → open_parts hmac ring parts ≡ ok body
    → IsSigned hmac ring token body
unfolding open_parts
open_parts-IsSigned hmac ring token [] s h = absurd (cc)
open_parts-IsSigned hmac ring token (v ∷ []) s h = absurd (cc)
open_parts-IsSigned hmac ring token (v ∷ i ∷ []) s h = absurd (cc)
open_parts-IsSigned hmac ring token (v ∷ i ∷ eb ∷ []) s h = absurd (cc)
open_parts-IsSigned hmac ring token (v ∷ i ∷ eb ∷ et ∷ x ∷ xs) s h = absurd (cc)
open_parts-IsSigned hmac ring token (v ∷ i ∷ eb ∷ et ∷ []) {body} s h =
    let (version, decodes, (key, known, tag)) =
      open_parts_four hmac ring v i eb et {body = body} h in
    record {
      key = key;
      key_id = i;
      encoded_body = eb;
      encoded_tag = et;
      known = known;
      parts = s ∙ cc (version);
      body_decodes = decodes;
      tag_decodes = tag;
    }

-- What `Decode` checks behind the tag.
pub record Claims (json : Json) (c : Codec) (b : Binding) (body : Bytes) (cursor : Cursor)
    : Type 0 where
  payload : Payload
  reads : read_payload json body ≡ ok payload
  same_query : payload.binding ≡ b.fingerprint
  fresh : before c.now cursor.expires_at ≡ true
  is_payload : cursor ≡ record {
    direction = payload.direction;
    values = payload.values;
    expires_at = of_unix payload.expires_at;
  }

-- Whatever `Decode` returns was signed: the token carries a tag that verifies under the key of the
-- ring that it names, over the version, that identifier and the body; the cursor is the payload in
-- that body, which names the query's fingerprint and has not expired.
pub decode_cursor_authentic :
    (hmac : Hmac) (json : Json) (c : Codec) (b : Binding) (token : Bytes) {cursor : Cursor}
    → decode_cursor hmac json c b token ≡ ok cursor
    → (body : Bytes) × IsSigned hmac c.ring token body × Claims json c b body cursor
unfolding decode_cursor
decode_cursor_authentic hmac json c b token {cursor} h =
    elim (Result-cases (open_parts hmac c.ring (split b'.' token))) [
      | inr (e, f) ↦ ground (arith, f)
      | inl (body, f) ↦ elim (Result-cases (read_payload json body)) [
        | inr (e, g) ↦ ground (arith, f, g)
        | inl (p, g) ↦ (
          body,
          open_parts-IsSigned hmac c.ring token _ refl f,
          record {
            payload = p;
            reads = g;
            same_query = ground (arith, f, g, str_eq-eq p.binding b.fingerprint);
            fresh = ground (arith, f, g);
            is_payload = ground (arith, f, g);
          },
        )
      ]
    ]
