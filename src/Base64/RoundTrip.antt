-- ===== src/Base64/RoundTrip.antt =====
-- The encoder and the strict decoder of an alphabet without padding are inverse to each other.
use nise_and_go.Common.{
  ◌≢◌, ℕ, ◌+◌, ◌*◌, ◌/◌, ◌%◌, ◌≤◌, ◌<◌, ◌≡◌, refl, Bool, true, inl, inr, [], ◌∷◌, ◌++◌, Option,
  none, some, arith, length, not, ◌==◌, Bool-cases, subst,
}
use nise_and_go.Common.Text.{Bytes, All}
use nise_and_go.Common.Maybe.{◌>>=◌, ◌>>◌, none_if}
pub use nise_and_go.Base64.Encoded.{IsByte}
use nise_and_go.Base64.Encoded.{decode-encode}
use nise_and_go.Base64.{
  url, digit, undigit, encode_raw, one_byte, two_bytes, three_bytes, quanta_raw, without_newlines,
  encode, decode_raw,
}

undigit-digit : (v : ℕ) → v < 64 → undigit url (digit url v) ≡ some v
unfolding digit undigit
undigit-digit v h = ground arith

digit_sound : (c : ℕ) {v : ℕ} → undigit url c ≡ some v → (v < 64) × (digit url v ≡ c)
unfolding digit undigit
digit_sound c h = ground arith

url_graphic : (v : ℕ) → 32 < digit url v
unfolding digit
url_graphic v = ground arith

-- Decoding an encoded text gives the bytes back, strictly or not.
pub decode_raw-encode :
    (strict : Bool) (s : Bytes) → All IsByte s → decode_raw url strict (encode url s) ≡ some s
decode_raw-encode = decode-encode url undigit-digit url_graphic

-- What the digits of one accepted quantum encode.
abbrev Encodes : Bytes → Bytes → Type 0
Encodes t s = (encode_raw url s ≡ t) × All IsByte s

one_byte_sound :
    (w x p q : ℕ)
    → undigit url w ≡ some p
    → undigit url x ≡ some q
    → q % 16 ≡ 0
    → Encodes (w ∷ x ∷ []) ((p * 4 + q / 16) ∷ [])
unfolding encode_raw
one_byte_sound w x p q e f h =
    let (lp, ep) = digit_sound w e in
    let (lq, eq) = digit_sound x f in
    let e₀ : (p * 4 + q / 16) / 4 ≡ p = omega arith in
    let e₁ : (p * 4 + q / 16) % 4 * 16 ≡ q = omega arith in (rw (e₀, e₁, ep, eq) refl, omega arith)

two_bytes_sound :
    (w x y p q r : ℕ)
    → undigit url w ≡ some p
    → undigit url x ≡ some q
    → undigit url y ≡ some r
    → r % 4 ≡ 0
    → Encodes (w ∷ x ∷ y ∷ []) ((p * 4 + q / 16) ∷ (q % 16 * 16 + r / 4) ∷ [])
unfolding encode_raw
two_bytes_sound w x y p q r e f g h =
    let (lp, ep) = digit_sound w e in
    let (lq, eq) = digit_sound x f in
    let (lr, er) = digit_sound y g in
    let e₀ : (p * 4 + q / 16) / 4 ≡ p = omega arith in
    let e₁ : (p * 4 + q / 16) % 4 * 16 + (q % 16 * 16 + r / 4) / 16 ≡ q = omega arith in
    let e₂ : (q % 16 * 16 + r / 4) % 16 * 4 ≡ r = omega arith in
    (rw (e₀, e₁, e₂, ep, eq, er) refl, (omega arith, (omega arith, tt)))

three_bytes_sound :
    (w x y z p q r v : ℕ) (t rest : Bytes)
    → undigit url w ≡ some p
    → undigit url x ≡ some q
    → undigit url y ≡ some r
    → undigit url z ≡ some v
    → Encodes t rest
    → Encodes
        (w ∷ x ∷ y ∷ z ∷ t)
        ((p * 4 + q / 16) ∷ (q % 16 * 16 + r / 4) ∷ (r % 4 * 64 + v) ∷ rest)
unfolding encode_raw
three_bytes_sound w x y z p q r v t rest e f g h (same, bytes) =
    let (lp, ep) = digit_sound w e in
    let (lq, eq) = digit_sound x f in
    let (lr, er) = digit_sound y g in
    let (lv, ev) = digit_sound z h in
    let e₀ : (p * 4 + q / 16) / 4 ≡ p = omega arith in
    let e₁ : (p * 4 + q / 16) % 4 * 16 + (q % 16 * 16 + r / 4) / 16 ≡ q = omega arith in
    let e₂ : (q % 16 * 16 + r / 4) % 16 * 4 + (r % 4 * 64 + v) / 64 ≡ r = omega arith in
    let e₃ : (r % 4 * 64 + v) % 64 ≡ v = omega arith in
    (
      rw (e₀, e₁, e₂, e₃, ep, eq, er, ev, same) refl,
      (omega arith, (omega arith, (omega arith, bytes))),
    )

-- Whatever is decoded, if anything, is what the text encodes.
abbrev Sound : Bytes → Option Bytes → Type 0
Sound t none = Unit
Sound t (some s) = Encodes t s

one_byte-Sound :
    (w x : ℕ) (o₁ o₂ : Option ℕ)
    → undigit url w ≡ o₁
    → undigit url x ≡ o₂
    → Sound
        (w ∷ x ∷ [])
        (do p ← o₁; q ← o₂; none_if (not (q % 16 == 0)); some ((p * 4 + q / 16) ∷ []))
one_byte-Sound w x none o₂ e f = tt
one_byte-Sound w x (some p) none e f = tt
one_byte-Sound w x (some p) (some q) e f = elim (Bool-cases (q % 16 == 0)) [
  | inl b ↦ rw b (one_byte_sound w x p q e f (ground arith))
  | inr b ↦ rw b tt
]

two_bytes-Sound :
    (w x y : ℕ) (o₁ o₂ o₃ : Option ℕ)
    → undigit url w ≡ o₁
    → undigit url x ≡ o₂
    → undigit url y ≡ o₃
    → Sound (w ∷ x ∷ y ∷ []) (do
      p ← o₁
      q ← o₂
      r ← o₃
      none_if (not (r % 4 == 0))
      some ((p * 4 + q / 16) ∷ (q % 16 * 16 + r / 4) ∷ []))
two_bytes-Sound w x y none o₂ o₃ e f g = tt
two_bytes-Sound w x y (some p) none o₃ e f g = tt
two_bytes-Sound w x y (some p) (some q) none e f g = tt
two_bytes-Sound w x y (some p) (some q) (some r) e f g = elim (Bool-cases (r % 4 == 0)) [
  | inl b ↦ rw b (two_bytes_sound w x y p q r e f g (ground arith))
  | inr b ↦ rw b tt
]

three_bytes-Sound :
    (w x y z : ℕ) (t : Bytes) (o₁ o₂ o₃ o₄ : Option ℕ) (o : Option Bytes)
    → undigit url w ≡ o₁
    → undigit url x ≡ o₂
    → undigit url y ≡ o₃
    → undigit url z ≡ o₄
    → Sound t o
    → Sound (w ∷ x ∷ y ∷ z ∷ t) (do
      three ← (do
        p ← o₁
        q ← o₂
        r ← o₃
        v ← o₄
        some ((p * 4 + q / 16) ∷ (q % 16 * 16 + r / 4) ∷ (r % 4 * 64 + v) ∷ []))
      rest ← o
      some (three ++ rest))
three_bytes-Sound w x y z t none o₂ o₃ o₄ o e f g h k = tt
three_bytes-Sound w x y z t (some p) none o₃ o₄ o e f g h k = tt
three_bytes-Sound w x y z t (some p) (some q) none o₄ o e f g h k = tt
three_bytes-Sound w x y z t (some p) (some q) (some r) none o e f g h k = tt
three_bytes-Sound w x y z t (some p) (some q) (some r) (some v) none e f g h k = tt
three_bytes-Sound w x y z t (some p) (some q) (some r) (some v) (some rest) e f g h k =
    three_bytes_sound w x y z p q r v t rest e f g h k

quanta_raw-Sound : (t : Bytes) → Sound t (quanta_raw url true t)
unfolding quanta_raw one_byte two_bytes three_bytes encode_raw
quanta_raw-Sound [] = (refl, tt)
quanta_raw-Sound (w ∷ []) = tt
quanta_raw-Sound (w ∷ x ∷ []) = one_byte-Sound w x _ _ refl refl
quanta_raw-Sound (w ∷ x ∷ y ∷ []) = two_bytes-Sound w x y _ _ _ refl refl refl
quanta_raw-Sound (w ∷ x ∷ y ∷ z ∷ t) =
    three_bytes-Sound w x y z t _ _ _ _ _ refl refl refl refl (quanta_raw-Sound t)

-- A text without line breaks that the strict decoder takes is the encoding of what it returns.
pub decode_raw_sound :
    (t s : Bytes)
    → decode_raw url true t ≡ some s
    → (encode url s ≡ without_newlines t) × All IsByte s
unfolding decode_raw encode
decode_raw_sound t s h =
    subst (Sound (without_newlines t)) h (quanta_raw-Sound (without_newlines t))

length-encode_raw : (s : Bytes) → length (encode_raw url s) ≡ (4 * length s + 2) / 3
unfolding encode_raw
length-encode_raw [] = omega arith
length-encode_raw (a ∷ []) = omega arith
length-encode_raw (a ∷ b ∷ []) = omega arith
length-encode_raw (a ∷ b ∷ c ∷ r) = omega (arith, length-encode_raw r)

-- `EncodedLen` of an encoding without padding.
pub length-encode : (s : Bytes) → length (encode url s) ≡ (4 * length s + 2) / 3
unfolding encode
length-encode s = length-encode_raw s

length-without_newlines : (t : Bytes) → length (without_newlines t) ≤ length t
unfolding without_newlines
length-without_newlines [] = omega arith
length-without_newlines (c ∷ t) = ground (arith, length-without_newlines t)

-- Dropping line breaks keeps the length only where there are none.
pub without_newlines_id :
    (t : Bytes) → length t ≤ length (without_newlines t) → without_newlines t ≡ t
unfolding without_newlines
without_newlines_id [] h = refl
without_newlines_id (c ∷ t) h = ground (arith, length-without_newlines t, without_newlines_id t)

digit-ne_dot : (v : ℕ) → digit url v ≢ b'.'
unfolding digit
digit-ne_dot v = ground arith

encode_raw-lacks_dot : (s : Bytes) → All (λ c. c ≢ b'.') (encode_raw url s)
unfolding encode_raw
encode_raw-lacks_dot [] = tt
encode_raw-lacks_dot (a ∷ []) = (digit-ne_dot _, (digit-ne_dot _, tt))
encode_raw-lacks_dot (a ∷ b ∷ []) = (digit-ne_dot _, (digit-ne_dot _, (digit-ne_dot _, tt)))
encode_raw-lacks_dot (a ∷ b ∷ c ∷ r) =
    (digit-ne_dot _, (digit-ne_dot _, (digit-ne_dot _, (digit-ne_dot _, encode_raw-lacks_dot r))))

-- A character outside the alphabet is in no encoding; a dot is such a character.
pub encode-lacks_dot : (s : Bytes) → All (λ c. c ≢ b'.') (encode url s)
unfolding encode
encode-lacks_dot s = encode_raw-lacks_dot s
