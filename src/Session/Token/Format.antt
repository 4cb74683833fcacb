-- ===== src/Session/Token/Format.antt =====
-- Which texts are tokens: the ones that `New` makes, and no other spelling of them.
use nise_and_go.Common.{
  ◌≤◌, ◌≡◌, refl, ap, ◌∙◌, sym, true, inl, inr, ◌∷◌, ◌++◌, Option, some, arith, length,
  Option-cases,
}
use nise_and_go.Common.Text.{
  Bytes, str_eq, str_eq-eq, str_eq_refl, cut, cut-append, cut_sound, All, Lacks,
}
use nise_and_go.Base64.{url, encode, decode_raw, without_newlines}
use nise_and_go.Base64.RoundTrip.{
  IsByte, decode_raw-encode, decode_raw_sound, length-encode, without_newlines_id,
}
use nise_and_go.Session.Token.{
  Token, new_token, parse, token_version, token_separator, secret_bytes, encoded_secret_length,
}

abbrev pub minted : Bytes → Bytes
minted secret = token_version ++ token_separator ∷ encode url secret

version-Lacks : Lacks token_separator token_version
version-Lacks = omega arith

-- `Parse` accepts every token that `New` makes of 32 random bytes, and returns that token.
pub parse-new_token :
    (secret : Bytes)
    → length secret ≡ secret_bytes
    → All IsByte secret
    → (new_token (some secret) ≡ some (record { value = minted secret }))
      × (parse (minted secret) ≡ some (record { value = minted secret }))
unfolding parse new_token
parse-new_token secret size bytes = (
  refl,
  ground (
    arith,
    cut-append token_separator token_version (encode url secret) version-Lacks,
    str_eq_refl token_version,
    length-encode secret,
    decode_raw-encode true secret bytes,
    size,
  ),
)

-- Line breaks inside the secret would be skipped by the decoder, and the two length checks rule
-- them out.
encoded_once :
    (text decoded : Bytes)
    → length text ≡ encoded_secret_length
    → length decoded ≡ secret_bytes
    → decode_raw url true text ≡ some decoded
    → (encode url decoded ≡ text) × All IsByte decoded
encoded_once text decoded long whole e =
    let (same, bytes) = decode_raw_sound text decoded e in
    let kept : length text ≤ length (without_newlines text) =
      omega (arith, ap length same, length-encode decoded) in
    (same ∙ without_newlines_id text kept, bytes)

parse_parts :
    (raw version text : Bytes) {t : Token}
    → cut token_separator raw ≡ some (version, text)
    → parse raw ≡ some t
    → (str_eq version token_version ≡ true)
      × (length text ≡ encoded_secret_length)
      × ((decoded : Bytes) × (decode_raw url true text ≡ some decoded)
          × (length decoded ≡ secret_bytes))
      × (t.value ≡ raw)
unfolding parse
parse_parts raw version text e h = elim (Option-cases (decode_raw url true text)) [
  | inl f ↦ ground (arith, f)
  | inr (decoded, f) ↦
      (ground (arith, f), ground (arith, f), (decoded, f, ground arith), ground (arith, f))
]

-- A text that `Parse` accepts is the text of the token that `New` makes of some 32 bytes, and is
-- returned unchanged.
pub parse_sound :
    (raw : Bytes) {t : Token}
    → parse raw ≡ some t
    → (secret : Bytes) × (length secret ≡ secret_bytes)
      × All IsByte secret
      × (new_token (some secret) ≡ some t)
      × (t.value ≡ raw)
unfolding new_token
parse_sound raw {t} h = elim (Option-cases (cut token_separator raw)) [
  | inl e ↦ unfold parse in ground (arith, e)
  | inr ((version, text), e) ↦
      let (is_version, long, (decoded, f, whole), value) =
        parse_parts raw version text {t = t} e h in
      let (same, bytes) = encoded_once text decoded long whole f in
      let (form, _) = cut_sound token_separator raw e in
      let spelled : minted decoded ≡ raw = rw same (
        ap (λ v. v ++ token_separator ∷ text) (sym (str_eq-eq version token_version is_version))
        ∙ sym form) in
      (
        decoded,
        whole,
        bytes,
        ap {B = Option Token} (λ v. some (record { value = v })) (spelled ∙ sym value),
        value,
      )
]
