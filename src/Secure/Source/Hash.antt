-- ===== src/Secure/Source/Hash.antt =====
-- What `normalizeHash` accepts.
use nise_and_go.Common.{
  Option-cases, ℕ, ◌≡◌, refl, ap, ◌∙◌, ◌⊎◌, inl, inr, true, List, [], ◌∷◌, some, arith, Bool-cases,
  length, drop,
}
use nise_and_go.Common.Text.{Bytes}
use nise_and_go.Common.Affix.{has_prefix, trim_byte}
use nise_and_go.Common.Affix.Trim.{trim_byte-wrapped}
use nise_and_go.Common.Space.{trim_space, trim_space-visible}
use nise_and_go.Common.Result.{Result, ok, ◌>>◌, >>=-eq-ok}
use nise_and_go.Secure.Source.{
  valid_source, quote, quoted, hash_algorithms, decode_base64_any, hash_digest, hash_loop,
  normalize_hash, SecureError,
}

abbrev IsAlgorithm : List (Bytes × ℕ) → Bytes → ℕ → Type 0
IsAlgorithm [] prefix size = ⊥
IsAlgorithm ((p, n) ∷ algorithms) prefix size =
    ((prefix ≡ p) × (size ≡ n)) ⊎ IsAlgorithm algorithms prefix size

-- A hash source in quotes: the name of an algorithm, and a digest of its width in base64.
abbrev pub IsHash : Bytes → Type 0
IsHash s =
    (body : Bytes) × (prefix : Bytes) × (size : ℕ) × (digest : Bytes) × (s ≡ quoted body)
    × IsAlgorithm hash_algorithms prefix size
    × (has_prefix body prefix ≡ true)
    × (decode_base64_any (drop (length prefix) body) ≡ some digest)
    × (length digest ≡ size)

hash_digest_sound :
    (raw : Bytes) (size : ℕ) (encoded : Bytes)
    → hash_digest raw size encoded ≡ ok tt
    → (digest : Bytes) × (decode_base64_any encoded ≡ some digest) × (length digest ≡ size)
unfolding hash_digest
hash_digest_sound raw size encoded h = elim (Option-cases (decode_base64_any encoded)) [
  | inl e ↦ ground (arith, h, e)
  | inr (digest, e) ↦ (digest, e, ground (arith, h, e))
]

hash_loop_sound :
    (algorithms : List (Bytes × ℕ)) (raw h out : Bytes)
    → hash_loop algorithms raw h ≡ ok out
    → (out ≡ quoted h)
      × (prefix : Bytes) × (size : ℕ) × (digest : Bytes) × IsAlgorithm algorithms prefix size
      × (has_prefix h prefix ≡ true)
      × (decode_base64_any (drop (length prefix) h) ≡ some digest)
      × (length digest ≡ size)
unfolding hash_loop
hash_loop_sound [] raw h out e = cc
hash_loop_sound ((p, n) ∷ algorithms) raw h out e = elim (Bool-cases (has_prefix h p)) [
  | inl t ↦
      let step : (hash_digest raw n (drop (length p) h) >> ok (quoted h)) ≡ ok out =
        ground (arith, e, t) in
      let (u, accepted, same) =
        >>=-eq-ok (hash_digest raw n (drop (length p) h)) (λ (u : Unit {0}). ok (quoted h)) step in
      let (digest, decoded, width) = hash_digest_sound raw n (drop (length p) h) accepted in
      (ground (arith, same), p, n, digest, inl (refl, refl), t, decoded, width)
  | inr f ↦
      let step : hash_loop algorithms raw h ≡ ok out = ground (arith, e, f) in
      let (c, prefix, size, digest, m, named, decoded, width) =
        hash_loop_sound algorithms raw h out step in
      (c, prefix, size, digest, inr m, named, decoded, width)
]

-- The text that was given only shows in the errors.
hash_digest-raw :
    (r1 r2 : Bytes) (size : ℕ) (encoded : Bytes)
    → hash_digest r1 size encoded ≡ ok tt
    → hash_digest r2 size encoded ≡ ok tt
unfolding hash_digest
hash_digest-raw r1 r2 size encoded h = ground (arith, h)

hash_loop-raw :
    (algorithms : List (Bytes × ℕ)) (r1 r2 h out : Bytes)
    → hash_loop algorithms r1 h ≡ ok out
    → hash_loop algorithms r2 h ≡ ok out
unfolding hash_loop
hash_loop-raw [] r1 r2 h out e = cc
hash_loop-raw ((p, n) ∷ algorithms) r1 r2 h out e =
    ground
      (arith, e, hash_digest-raw r1 r2 n (drop (length p) h), hash_loop-raw algorithms r1 r2 h out)

normalize-steps :
    (raw out : Bytes)
    → normalize_hash raw ≡ ok out
    → let h = trim_byte quote (trim_space raw) in
      (valid_source (quoted h) ≡ ok tt) × (hash_loop hash_algorithms raw h ≡ ok out)
unfolding normalize_hash
normalize-steps raw out e =
    let h = trim_byte quote (trim_space raw) in
    let (u, valid, loop) =
      >>=-eq-ok (valid_source (quoted h)) (λ (u : Unit {0}). hash_loop hash_algorithms raw h) e in
    (valid, loop)

-- What is accepted is a hash source in quotes that may stand in a directive.
pub normalize_hash-IsHash :
    (raw out : Bytes) → normalize_hash raw ≡ ok out → IsHash out × (valid_source out ≡ ok tt)
normalize_hash-IsHash raw out e =
    let h = trim_byte quote (trim_space raw) in
    let (valid, loop) = normalize-steps raw out e in
    let (c, prefix, size, digest, m, named, decoded, width) =
      hash_loop_sound hash_algorithms raw h out loop in
    ((h, prefix, size, digest, c, m, named, decoded, width), ap valid_source c ∙ valid)

-- The canonical form is accepted, and is its own canonical form.
pub normalize_hash_idem :
    (raw out : Bytes) → normalize_hash raw ≡ ok out → normalize_hash out ≡ ok out
unfolding normalize_hash
normalize_hash_idem raw out e =
    let h = trim_byte quote (trim_space raw) in
    let (valid, loop) = normalize-steps raw out e in
    let c = (hash_loop_sound hash_algorithms raw h out loop).0 in
    let outer : trim_space out ≡ quoted h =
      ap trim_space c ∙ trim_space-visible quote quote h refl refl in
    let inner : trim_byte quote (trim_space out) ≡ h =
      ap (trim_byte quote) outer ∙ trim_byte-wrapped quote (trim_space raw) in
    ap (λ (b : Bytes). valid_source (quoted b) >> hash_loop hash_algorithms out b) inner
    ∙ ap (λ (r : Result SecureError (Unit {0})). r >> hash_loop hash_algorithms out h) valid
    ∙ hash_loop-raw hash_algorithms raw out h out loop
