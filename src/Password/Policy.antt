-- ===== src/Password/Policy.antt =====
-- runtime/password/policy.go: the policy of a deployment. Argon2id is a parameter: secret, salt, iterations,
-- memory, parallelism and the length of the tag. The random bytes of a call are its argument; `none` is
-- a random source that failed.
pub mod Verified
use nise_and_go.Common.{
  ℕ, ◌+◌, ◌-◌, Bool, true, false, ◌&&◌, ◌||◌, not, List, [], ◌∷◌, ◌++◌, Option, none, some, ltb,
  leb, ◌==◌, if◌then◌else◌, length, take,
}
use nise_and_go.Common.Int.{ℤ, pos, leb_ℤ}
use nise_and_go.Common.Text.{Bytes, str_eq, is_empty}
use nise_and_go.Common.Result.{Result, ok, err, ◌>>=◌, ◌>>◌, fail_if}
use nise_and_go.Base64.{url, encode}
use nise_and_go.Password.Params.{
  Params, PasswordError, is_zero_params, same_cost, distinct, not_constructed, password_length,
  random_failed, encoding_tag, key_bytes, max_password_bytes, min_tag_bytes, max_tag_bytes,
}
use nise_and_go.Password.Encoding.{encode_hash, decode_hash, as_result}

pub record Verification : Type 0 where
  pub match : Bool
  pub needs_rehash : Bool
  pub version : ℤ

pub record Policy : Type 0 where
  pub current : Params
  pub accepted : List Params
  pub dummy_hash : Bytes
  pub dummy_value : Bytes

unfoldable pub check_secret : Bytes → Result PasswordError (Unit {0})
check_secret secret =
    fail_if (is_empty secret || ltb max_password_bytes (length secret))
      (password_length (length secret))

unfoldable pub clamp_secret : Bytes → Bytes
clamp_secret secret =
    if is_empty secret
    then 0 ∷ []
    else if ltb max_password_bytes (length secret)
    then take max_password_bytes secret
    else secret

abbrev pub versions : List Params → List ℤ
versions [] = []
versions (p ∷ sets) = p.version ∷ versions sets

unfoldable pub constructed : List Params → Bool
unfolding is_zero_params
constructed [] = true
constructed (p ∷ sets) = not (is_zero_params p) && constructed sets

module _ (argon2id : Bytes → Bytes → ℕ → ℕ → ℕ → ℕ → Bytes) where
  unfoldable pub hash_with : Params → Option Bytes → Bytes → Result PasswordError Bytes
  unfolding check_secret encode_hash
  hash_with p salt secret = do
    check_secret secret
    salt ← as_result random_failed salt
    ok (encode_hash p salt (argon2id secret salt p.iterations p.memory_kib p.parallelism key_bytes))

  unfoldable pub hash : Policy → Option Bytes → Bytes → Result PasswordError Bytes
  unfolding hash_with
  hash policy salt secret = hash_with policy.current salt secret

  -- `random` has the bytes of the dummy password.
  unfoldable pub new_policy :
      Params → List Params → Option Bytes → Option Bytes → Result PasswordError Policy
  unfolding is_zero_params constructed distinct encode hash_with
  new_policy current superseded random salt = do
    fail_if (is_zero_params current) not_constructed
    fail_if (not (constructed superseded)) not_constructed
    elim (distinct (current ∷ superseded)) [
      | some e ↦ err e
      | none ↦ do
        bytes ← as_result random_failed random
        let value = encode url bytes
        hashed ← hash_with current salt value
        ok (record {
          current = current;
          accepted = current ∷ superseded;
          dummy_hash = hashed;
          dummy_value = value;
        })
    ]

  unfoldable pub verify : Policy → Bytes → Bytes → Result PasswordError Verification
  unfolding check_secret decode_hash
  verify policy encoded secret = do
    check_secret secret
    stored ← decode_hash policy.accepted encoded
    let n = length stored.2
    fail_if (ltb n min_tag_bytes || ltb max_tag_bytes n) encoding_tag
    let p = stored.0
    let derived = argon2id secret stored.1 p.iterations p.memory_kib p.parallelism n
    ok (record {
      match = str_eq derived stored.2;
      needs_rehash = not (same_cost p policy.current);
      version = p.version;
    })

  -- The result is discarded; what counts is that the work is done.
  unfoldable pub verify_dummy : Policy → Bytes → Result PasswordError Verification
  unfolding verify clamp_secret
  verify_dummy policy secret = verify policy policy.dummy_hash (clamp_secret secret)
