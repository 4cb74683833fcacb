-- ===== src/Secure/Source.antt =====
-- runtime/secure/csp.go and options.go: which sources, hashes, report addresses and permission items
-- an application may name.
pub mod Hash
use nise_and_go.Common.{
  refl, ◌≡◌, ℕ, ◌+◌, ◌-◌, Bool, true, false, ◌&&◌, ◌||◌, not, List, [], ◌∷◌, ◌++◌, Option, none,
  some, ltb, leb, ◌==◌, if◌then◌else◌, length, drop,
}
use nise_and_go.Common.Text.{Bytes, codes, str_eq, is_empty, between, all_of}
use nise_and_go.Common.Affix.{trim_left, trim_right, has_prefix, has_suffix, trim_byte, to_lower}
use nise_and_go.Common.Keys.{contains}
use nise_and_go.Common.Space.{trim_space}
use nise_and_go.Common.Result.{Result, ok, err, ◌>>=◌, ◌>>◌, fail_if}
use nise_and_go.Base64.{std, url, decode_raw, decode_padded}

-- What a policy is refused for.
pub data SecureError : Type 0 where
  invalid_deployment : Bytes → SecureError
  empty_source source_too_long : SecureError
  unusable_source refused_source : Bytes → SecureError
  hash_without_digest hash_not_base64 hash_wrong_size hash_unknown : Bytes → SecureError
  empty_report_uri : SecureError
  unusable_report_uri invalid_report_uri report_uri_external report_uri_local : Bytes → SecureError
  empty_reason : Bytes → Bytes → SecureError
  document_only_option : Bytes → SecureError
  no_sources nil_option : SecureError
  unknown_referrer leaking_referrer private_referrer : Bytes → SecureError
  unknown_embedder unknown_resource default_resource : Bytes → SecureError
  permission_reason empty_feature : SecureError
  feature_too_long feature_characters : Bytes → SecureError
  refused_item invalid_item unusable_item : Bytes → SecureError
  reduced_in_development reduced_to_nothing preload_reduced : SecureError

abbrev pub max_source_length : ℕ
max_source_length = 512

abbrev pub unsafe_keywords : List Bytes
unsafe_keywords =
    codes "'unsafe-inline'"
    ∷ codes "'unsafe-eval'"
    ∷ codes "'unsafe-hashes'"
    ∷ codes "'wasm-unsafe-eval'"
    ∷ codes "*"
    ∷ []

-- A byte that stays within its directive and its header.
abbrev pub source_byte : ℕ → Bool
source_byte c = not (ltb c 0x21 || ltb 0x7e c || c == b';' || c == b',')

-- The lower case of the keywords is asked for when all bytes are known to be ASCII.
unfoldable pub valid_source : Bytes → Result SecureError (Unit {0})
valid_source source = do
  fail_if (is_empty source) empty_source
  fail_if (ltb max_source_length (length source)) source_too_long
  fail_if (not (all_of source_byte source)) (unusable_source source)
  fail_if (contains unsafe_keywords (to_lower source)) (refused_source source)

abbrev pub quote : ℕ
quote = b'\''

abbrev pub quoted : Bytes → Bytes
quoted h = quote ∷ h ++ quote ∷ []

-- An algorithm is its prefix and the number of bytes of its digests.
abbrev pub hash_algorithms : List (Bytes × ℕ)
hash_algorithms = (codes "sha256-", 32) ∷ (codes "sha384-", 48) ∷ (codes "sha512-", 64) ∷ []

-- The first of the four encodings that accepts.
unfoldable pub decode_base64_any : Bytes → Option Bytes
decode_base64_any encoded = elim (decode_padded std encoded) [
  | some digest ↦ some digest
  | none ↦ elim (decode_raw std false encoded) [
    | some digest ↦ some digest
    | none ↦ elim (decode_padded url encoded) [
      | some digest ↦ some digest
      | none ↦ decode_raw url false encoded
    ]
  ]
]

-- The digest of a hash of one algorithm, which has to have `size` bytes.
unfoldable pub hash_digest : Bytes → ℕ → Bytes → Result SecureError (Unit {0})
unfolding decode_base64_any
hash_digest raw size encoded = do
  fail_if (is_empty encoded) (hash_without_digest raw)
  elim (decode_base64_any encoded) [
    | none ↦ err (hash_not_base64 raw)
    | some digest ↦ fail_if (not (length digest == size)) (hash_wrong_size raw)
  ]

unfoldable pub hash_loop : List (Bytes × ℕ) → Bytes → Bytes → Result SecureError Bytes
unfolding hash_digest
hash_loop [] raw h = err (hash_unknown raw)
hash_loop ((prefix, size) ∷ algorithms) raw h =
    let rest = hash_loop algorithms raw h in
    if has_prefix h prefix
    then hash_digest raw size (drop (length prefix) h) >> ok (quoted h)
    else rest

unfoldable pub normalize_hash : Bytes → Result SecureError Bytes
unfolding hash_loop
normalize_hash raw =
    let h = trim_byte quote (trim_space raw) in
    valid_source (quoted h) >> hash_loop hash_algorithms raw h

-- The forms of a report address that are accepted.
pub data ReportForm : Type 0 where
  same_origin external : ReportForm

unfoldable pub classify_report_uri : Bytes → Result SecureError ReportForm
classify_report_uri uri = if is_empty uri then err empty_report_uri else elim (valid_source uri) [
  | err _ ↦ err (unusable_report_uri uri)
  | ok _ ↦
      if has_prefix uri (codes "/") && not (has_prefix uri (codes "//"))
      then ok same_origin
      else if has_prefix uri (codes "https://") && ltb (length (codes "https://")) (length uri)
      then ok external
      else err (invalid_report_uri uri)
]

unfoldable pub valid_permission_feature : Bytes → Result SecureError (Unit {0})
valid_permission_feature feature = do
  fail_if (is_empty feature) empty_feature
  fail_if (ltb 64 (length feature)) (feature_too_long feature)
  fail_if (not (all_of (λ c. between b'a' b'z' c || c == b'-') feature))
      (feature_characters feature)

abbrev https_quoted : Bytes
https_quoted = codes "\"https://"

unfoldable pub valid_permission_allowlist_item : Bytes → Result SecureError (Unit {0})
valid_permission_allowlist_item item =
    if str_eq item (codes "self") || str_eq item (codes "src")
    then ok tt
    else if str_eq item (codes "*")
    then err (refused_item item)
    else if not (has_prefix item https_quoted)
        || not (has_suffix item (codes "\""))
        || leb (length item) (length https_quoted + 1)
    then err (invalid_item item)
    else fail_if (not (all_of source_byte item)) (unusable_item item)

hash_runs :
    normalize_hash (codes " sha256-47DEQpj8HBSa-_TImW-5JCeuQeRkm5NMpJWZG3hSuFU ")
    ≡ ok (codes "'sha256-47DEQpj8HBSa-_TImW-5JCeuQeRkm5NMpJWZG3hSuFU'")
unfolding normalize_hash valid_source trim_right trim_left trim_space all_of contains str_eq
    to_lower has_prefix decode_padded decode_raw
hash_runs = refl
