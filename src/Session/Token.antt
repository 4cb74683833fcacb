-- ===== src/Session/Token.antt =====
-- runtime/session/token.go. SHA-256 and the random source are parameters.
pub mod Format
pub mod Digest
use nise_and_go.Common.{
  ℕ, ◌+◌, ◌≤◌, ◌<◌, ◌≡◌, refl, Bool, true, false, ◌&&◌, ◌||◌, not, List, [], ◌∷◌, ◌++◌, Option,
  none, some, arith, ltb, ◌==◌, if◌then◌else◌, length,
}
use nise_and_go.Common.Text.{Bytes, codes, str_eq, cut, is_empty}
use nise_and_go.Common.Maybe.{◌>>=◌, ◌>>◌, none_if}
use nise_and_go.Base64.{url, encode, decode_raw}
use Prim.Native.Nat.{bit_or, bit_xor}

abbrev pub token_version : Bytes
token_version = codes "ns1"

abbrev pub token_separator : ℕ
token_separator = b'_'

abbrev pub secret_bytes : ℕ
secret_bytes = 32

abbrev pub digest_bytes : ℕ
digest_bytes = 32

abbrev pub max_token_bytes : ℕ
max_token_bytes = 128

-- `base64.RawURLEncoding.EncodedLen(SecretBytes)`
abbrev pub encoded_secret_length : ℕ
encoded_secret_length = 43

abbrev pub redacted : Bytes
redacted = codes "[REDACTED]"

pub record Token : Type 0 where
  pub value : Bytes

-- `Token{}`
abbrev pub zero_token : Token
zero_token = record { value = [] }

abbrev pub token_is_zero : Token → Bool
token_is_zero t = is_empty t.value

-- `New`, of the bytes that the random source gave; `none` when it failed.
unfoldable pub new_token : Option Bytes → Option Token
new_token random = do
  secret ← random
  some (record { value = token_version ++ token_separator ∷ encode url secret })

-- `Parse`; `none` is `ErrTokenFormat`.
unfoldable pub parse : Bytes → Option Token
parse raw = do
  none_if (ltb max_token_bytes (length raw))
  (version, secret) ← cut token_separator raw
  none_if (not (str_eq version token_version) || not (length secret == encoded_secret_length))
  decoded ← decode_raw url true secret
  none_if (not (length decoded == secret_bytes))
  some (record { value = raw })

-- `String`, `GoString`, `MarshalText` and `LogValue` all return the placeholder.
pub print : Token → Bytes
print t = redacted

module _ (sha256 : Bytes → Bytes) where
  -- The method `Digest`.
  unfoldable pub digest : Token → Bytes
  digest t = sha256 t.value

  -- The function `Digest`.
  unfoldable pub digest_of : Bytes → Option Bytes
  unfolding parse digest
  digest_of raw = do token ← parse raw; some (digest token)

-- The loop of `EqualDigest`: `difference |= a[i] ^ b[i]`.
difference : ℕ → Bytes → Bytes → ℕ
difference acc [] bs = acc
difference acc (a ∷ as₁) [] = acc
difference acc (a ∷ as₁) (b ∷ bs) = difference (bit_or acc (bit_xor a b)) as₁ bs

unfoldable pub equal_digest : Bytes → Bytes → Bool
unfolding difference
equal_digest a b =
    if not (length a == digest_bytes) || not (length b == digest_bytes)
    then false
    else difference 0 a b == 0
