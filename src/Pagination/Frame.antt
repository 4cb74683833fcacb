-- ===== src/Pagination/Frame.antt =====
-- runtime/pagination/cursor.go: `writeUint64`, `writeLengthPrefixed` and the message that `sign`
-- authenticates.
use nise_and_go.Common.{append-nil, ℕ, ◌/◌, ◌%◌, ◌^◌, ◌<◌, ◌≡◌, refl, [], ◌∷◌, ◌++◌, arith, length}
use nise_and_go.Common.Text.{Bytes}

-- `binary.BigEndian.PutUint64`
abbrev pub uint64_bytes : ℕ → Bytes
uint64_bytes n =
    (n / 2 ^ 56 % 256)
    ∷ (n / 2 ^ 48 % 256)
    ∷ (n / 2 ^ 40 % 256)
    ∷ (n / 2 ^ 32 % 256)
    ∷ (n / 2 ^ 24 % 256)
    ∷ (n / 2 ^ 16 % 256)
    ∷ (n / 2 ^ 8 % 256)
    ∷ (n % 256)
    ∷ []

-- What `writeLengthPrefixed` writes.
unfoldable pub frame : Bytes → Bytes
frame s = uint64_bytes (length s) ++ s

-- Everything that `sign` hands to the authentication code.
unfoldable pub signed_message : Bytes → Bytes → Bytes → Bytes
unfolding frame
signed_message version key_id body = frame version ++ (frame key_id ++ frame body)

-- A length that a uint64 holds.
abbrev pub Fits : ℕ → Type 0
Fits n = n < 2 ^ 64

pub uint64_bytes-injective :
    (a b : ℕ) (s t : Bytes)
    → Fits a
    → Fits b
    → uint64_bytes a ++ s ≡ uint64_bytes b ++ t
    → (a ≡ b) × (s ≡ t)
uint64_bytes-injective a b s t h k e = ground arith

append-injective : (a b s t : Bytes) → length a ≡ length b → a ++ s ≡ b ++ t → (a ≡ b) × (s ≡ t)
append-injective [] [] s t l e = (refl, e)
append-injective [] (y ∷ b) s t l e = absurd (omega arith)
append-injective (x ∷ a) [] s t l e = absurd (omega arith)
append-injective (x ∷ a) (y ∷ b) s t l e = ground (arith, append-injective a b s t)

-- A frame and what follows it can be told apart.
pub frame-injective :
    (a b s t : Bytes)
    → Fits (length a)
    → Fits (length b)
    → frame a ++ s ≡ frame b ++ t
    → (a ≡ b) × (s ≡ t)
unfolding frame
frame-injective a b s t h k e =
    let (l, rest) = uint64_bytes-injective (length a) (length b) (a ++ s) (b ++ t) h k e in
    append-injective a b s t l rest

-- Different versions, key identifiers and bodies are never signed as the same message: no byte can
-- move across a field's border.
pub signed_message-injective :
    (v w i j b c : Bytes)
    → Fits (length v)
    → Fits (length w)
    → Fits (length i)
    → Fits (length j)
    → Fits (length b)
    → Fits (length c)
    → signed_message v i b ≡ signed_message w j c
    → (v ≡ w) × (i ≡ j) × (b ≡ c)
unfolding signed_message
signed_message-injective v w i j b c hv hw hi hj hb hc e =
    let (ev, e₁) = frame-injective v w _ _ hv hw e in
    let (ei, e₂) = frame-injective i j _ _ hi hj e₁ in
    let (eb, _) = frame-injective b c [] [] hb hc (simp append-nil e₂) in (ev, ei, eb)
