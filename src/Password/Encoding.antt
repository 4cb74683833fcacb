-- ===== src/Password/Encoding.antt =====
-- runtime/password/policy.go: the stored form of a hash.
pub mod RoundTrip
use nise_and_go.Common.{
  ℕ, ◌+◌, ◌-◌, ◌^◌, Bool, true, false, ◌&&◌, ◌||◌, not, List, [], ◌∷◌, ◌++◌, Option, none, some,
  ltb, leb, ◌==◌, if◌then◌else◌, length, drop,
}
use nise_and_go.Common.Int.{ℤ, pos, eqb_ℤ}
use nise_and_go.Common.Text.{Bytes, codes, str_eq, is_empty, split, join}
use nise_and_go.Common.Affix.{has_prefix, decimal}
use nise_and_go.Common.Affix.Decimal.{parse_uint, atoi}
use nise_and_go.Common.Result.{Result, ok, err, ◌>>=◌, ◌>>◌, fail_if}
use nise_and_go.Base64.{std, encode, decode_raw}
use nise_and_go.Password.Params.{
  Params, PasswordError, same_cost, encoding_fields, encoding_version, encoding_cost,
  encoding_parallelism, encoding_salt, encoding_tag, algorithm_name, algorithm_version,
  unsupported_params, min_parallelism, max_parallelism, min_tag_bytes, max_tag_bytes,
  max_salt_bytes,
}

-- Argon2's own version, 0x13.
abbrev pub argon2_version : ℕ
argon2_version = 19

-- `strings.CutPrefix`
unfoldable pub cut_prefix : Bytes → Bytes → Option Bytes
unfolding has_prefix
cut_prefix s prefix = if has_prefix s prefix then some (drop (length prefix) s) else none

abbrev pub as_result : {A : Type 0} → PasswordError → Option A → Result PasswordError A
as_result e none = err e
as_result e (some a) = ok a

-- One cost of the field; a number of 32 bits.
unfoldable pub cost_value : Bytes → Bytes → Result PasswordError ℕ
unfolding cut_prefix parse_uint
cost_value prefix part = do
  raw ← as_result encoding_cost (cut_prefix part prefix)
  as_result encoding_cost (parse_uint 32 raw)

unfoldable pub cost_values : List Bytes → Result PasswordError (ℕ × ℕ × ℕ)
unfolding cost_value
cost_values (a ∷ b ∷ c ∷ []) = do
  memory ← cost_value (codes "m=") a
  iterations ← cost_value (codes "t=") b
  parallelism ← cost_value (codes "p=") c
  fail_if (ltb parallelism min_parallelism || ltb max_parallelism parallelism) encoding_parallelism
  ok (memory, iterations, parallelism)
cost_values [] = err encoding_cost
cost_values (a ∷ []) = err encoding_cost
cost_values (a ∷ b ∷ []) = err encoding_cost
cost_values (a ∷ b ∷ c ∷ d ∷ more) = err encoding_cost

unfoldable pub parse_cost : Bytes → Result PasswordError (ℕ × ℕ × ℕ)
unfolding cost_values
parse_cost field = cost_values (split b',' field)

abbrev pub cost_field : Params → Bytes
cost_field p = join b',' (
    (codes "m=" ++ decimal p.memory_kib)
    ∷ (codes "t=" ++ decimal p.iterations)
    ∷ (codes "p=" ++ decimal p.parallelism)
    ∷ [])

unfoldable pub encode_hash : Params → Bytes → Bytes → Bytes
unfolding decimal join encode
encode_hash p salt tag = join b'$' (
    []
    ∷ codes "argon2id"
    ∷ (codes "v=" ++ decimal argon2_version)
    ∷ cost_field p
    ∷ encode std salt
    ∷ encode std tag
    ∷ [])

-- The first accepted set with the stored cost.
unfoldable pub find_cost : List Params → Params → Option Params
unfolding same_cost
find_cost [] stored = none
find_cost (candidate ∷ accepted) stored =
    let rest = find_cost accepted stored in
    if same_cost candidate stored then some candidate else rest

unfoldable pub decode_version : Bytes → Result PasswordError (Unit {0})
unfolding cut_prefix atoi
decode_version field = do
  raw ← as_result encoding_version (cut_prefix field (codes "v="))
  version ← as_result encoding_version (atoi raw)
  fail_if (not (eqb_ℤ version (pos argon2_version))) algorithm_version

abbrev pub stored_params : ℕ × ℕ × ℕ → Params
stored_params (m, t, p) = record {
  version = pos 0;
  memory_kib = m;
  iterations = t;
  parallelism = p;
}

unfoldable pub decode_fields :
    List Params → List Bytes → Result PasswordError (Params × Bytes × Bytes)
unfolding decode_version parse_cost decode_raw find_cost
decode_fields accepted (first ∷ name ∷ version ∷ cost ∷ salt64 ∷ tag64 ∷ []) = do
  fail_if (not (is_empty first)) encoding_fields
  fail_if (not (str_eq name (codes "argon2id"))) algorithm_name
  decode_version version
  costs ← parse_cost cost
  salt ← as_result encoding_salt (decode_raw std true salt64)
  fail_if (is_empty salt) encoding_salt
  tag ← as_result encoding_tag (decode_raw std true tag64)
  fail_if (ltb (length tag) min_tag_bytes || ltb max_tag_bytes (length tag)) encoding_tag
  fail_if (ltb max_salt_bytes (length salt)) encoding_salt
  params ←
      as_result (unsupported_params costs.0 costs.1 costs.2)
        (find_cost accepted (stored_params costs))
  ok (params, salt, tag)
decode_fields accepted (a ∷ b ∷ c ∷ d ∷ e ∷ f ∷ g ∷ more) = err encoding_fields
decode_fields accepted (a ∷ b ∷ c ∷ d ∷ e ∷ []) = err encoding_fields
decode_fields accepted (a ∷ b ∷ c ∷ d ∷ []) = err encoding_fields
decode_fields accepted (a ∷ b ∷ c ∷ []) = err encoding_fields
decode_fields accepted (a ∷ b ∷ []) = err encoding_fields
decode_fields accepted (a ∷ []) = err encoding_fields
decode_fields accepted [] = err encoding_fields

unfoldable pub decode_hash : List Params → Bytes → Result PasswordError (Params × Bytes × Bytes)
unfolding decode_fields
decode_hash accepted encoded = decode_fields accepted (split b'$' encoded)
