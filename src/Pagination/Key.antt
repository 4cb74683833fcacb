-- ===== src/Pagination/Key.antt =====
-- runtime/pagination/key.go. The random source is an argument.
pub mod Ring
use nise_and_go.Common.{
  ℕ, ◌+◌, ◌≤◌, ◌<◌, ◌≡◌, refl, Bool, true, false, ◌&&◌, ◌||◌, not, List, [], ◌∷◌, ◌++◌, Option,
  none, some, arith, ltb, leb, ◌==◌, if◌then◌else◌, length, map, append-nil,
}
use nise_and_go.Common.Text.{Bytes, codes, str_eq, cut, is_empty, between, all_of}
use nise_and_go.Common.Result.{Result, ok, err, ◌>>=◌, ◌>>◌, fail_if}
use nise_and_go.Common.Keys.{contains}
use nise_and_go.Base64.{std, decode_raw, decode_padded}

abbrev pub min_key_bytes : ℕ
min_key_bytes = 32

abbrev pub max_key_id_bytes : ℕ
max_key_id_bytes = 32

abbrev pub max_retired_keys : ℕ
max_retired_keys = 8

pub data KeyError : Type 0 where
  key_id key_secret key_encoding duplicate_key_id too_many_retired_keys : KeyError

pub record Key : Type 0 where
  pub id : Bytes
  pub secret : Bytes

abbrev pub key_id_character : ℕ → Bool
key_id_character c = between b'a' b'z' c || between b'0' b'9' c || c == b'-' || c == b'_'

unfoldable pub valid_key_id : Bytes → Bool
unfolding all_of
valid_key_id id =
    if is_empty id || ltb max_key_id_bytes (length id) then false else all_of key_id_character id

unfoldable pub new_key : Bytes → Bytes → Result KeyError Key
new_key id secret = do
  fail_if (not (valid_key_id id)) key_id
  fail_if (ltb (length secret) min_key_bytes) key_secret
  ok (record { id = id; secret = secret })

-- Padded base64 first, then the form without padding.
unfoldable pub decode_key_secret : Bytes → Option Bytes
decode_key_secret raw = elim (decode_padded std raw) [
  | some secret ↦ some secret
  | none ↦ decode_raw std false raw
]

unfoldable pub parse_key : Bytes → Result KeyError Key
parse_key encoded = elim (cut b':' encoded) [
  | none ↦ err key_encoding
  | some (id, raw_secret) ↦
      if is_empty raw_secret then err key_encoding else elim (decode_key_secret raw_secret) [
        | none ↦ err key_encoding
        | some secret ↦ new_key id secret
      ]
]

-- `GenerateKey`, of the bytes that the random source gave; `none` when it failed.
unfoldable pub generate_key : Bytes → Option Bytes → Option (Result KeyError Key)
generate_key id none = none
generate_key id (some secret) = some (new_key id secret)

pub record KeyRing : Type 0 where
  pub active : Key
  pub retired : List Key

-- The loop of `NewKeyRing` over the retired keys; `seen` is a map, as the list of its keys.
unfoldable pub check_retired : List Bytes → List Key → Result KeyError (Unit {0})
unfolding contains
check_retired seen [] = ok tt
check_retired seen (k ∷ ks) = do
  fail_if (is_empty k.id) key_id
  fail_if (contains seen k.id) duplicate_key_id
  check_retired (k.id ∷ seen) ks

unfoldable pub new_key_ring : Key → List Key → Result KeyError KeyRing
unfolding check_retired
new_key_ring active retired = do
  fail_if (is_empty active.id) key_id
  fail_if (ltb max_retired_keys (length retired)) too_many_retired_keys
  check_retired (active.id ∷ []) retired
  ok (record { active = active; retired = retired })

-- `r.IDs()`
unfoldable pub ids : KeyRing → List Bytes
ids r = r.active.id ∷ map (λ k. k.id) r.retired

unfoldable pub find_retired : Bytes → List Key → Option Key
find_retired id [] = none
find_retired id (k ∷ ks) = if str_eq id k.id then some k else find_retired id ks

-- `r.find(id)`
unfoldable pub find : KeyRing → Bytes → Option Key
unfolding find_retired
find r id = if str_eq id r.active.id then some r.active else find_retired id r.retired
