-- ===== src/Password/Encoding/RoundTrip.antt =====
-- What is written is read back.
use nise_and_go.Common.{
  ℕ, ◌^◌, ◌≤◌, ◌<◌, ◌≡◌, ◌≢◌, refl, ap, ◌∙◌, true, false, not, List, [], ◌∷◌, ◌++◌, some, arith,
  ◌==◌, length,
}
use nise_and_go.Common.Text.{Bytes, codes, str_eq, is_empty, all_of, All, join, Lacks, split-join}
use nise_and_go.Common.Affix.{has_prefix, decimal}
use nise_and_go.Common.Affix.Decimal.{parse_uint-decimal, decimal-digits, is_digit, atoi}
use nise_and_go.Common.Result.{ok}
use nise_and_go.Base64.{std, encode, digit}
use nise_and_go.Base64.Encoded.{decode-encode-std, IsByte}
use nise_and_go.Base64.Digits.{all_of-encode}
use nise_and_go.Password.Params.{
  Params, min_parallelism, max_parallelism, min_tag_bytes, max_tag_bytes, max_salt_bytes,
}
use nise_and_go.Password.Encoding.{
  cut_prefix, cost_value, cost_values, parse_cost, cost_field, encode_hash, find_cost,
  decode_version, decode_fields, decode_hash, stored_params, argon2_version,
}

-- Costs within their machine types and the bounds of the format.
abbrev pub Fits : Params → Type 0
Fits p =
    (p.memory_kib < 2 ^ 32)
    × (p.iterations < 2 ^ 32)
    × (min_parallelism ≤ p.parallelism)
    × (p.parallelism ≤ max_parallelism)

cut_prefix-append : (p s : Bytes) → cut_prefix (p ++ s) p ≡ some s
unfolding cut_prefix has_prefix
cut_prefix-append [] s = ground arith
cut_prefix-append (c ∷ p) s = ground (arith, cut_prefix-append p s)

cost_value-decimal :
    (prefix : Bytes) (n : ℕ) → n < 2 ^ 32 → cost_value prefix (prefix ++ decimal n) ≡ ok n
unfolding cost_value
cost_value-decimal prefix n h =
    rw (cut_prefix-append prefix (decimal n), parse_uint-decimal 32 n h) refl

Lacks-by : (c : ℕ) (s : Bytes) → all_of (λ d. not (d == c)) s ≡ true → Lacks c s
unfolding all_of
Lacks-by c [] h = tt
Lacks-by c (d ∷ s) h = (λ e. ground (arith, h, e), Lacks-by c s (ground (arith, h)))

digits_are :
    (c : ℕ) (s : Bytes)
    → is_digit c ≡ false
    → all_of is_digit s ≡ true
    → all_of (λ d. not (d == c)) s ≡ true
unfolding all_of
digits_are c [] n h = refl
digits_are c (d ∷ s) n h = ground (arith, n, h, digits_are c s)

-- A name, an equals sign and a number hold no separator.
part-Lacks :
    (c n x : ℕ)
    → is_digit c ≡ false
    → (x == c) ≡ false
    → (b'=' == c) ≡ false
    → Lacks c (x ∷ b'=' ∷ decimal n)
unfolding all_of
part-Lacks c n x h k l =
    Lacks-by c (x ∷ b'=' ∷ decimal n)
      (ground (arith, k, l, digits_are c (decimal n) h (decimal-digits n)))

costs_read :
    (p : Params)
    → Fits p
    → cost_values (
        (codes "m=" ++ decimal p.memory_kib)
        ∷ (codes "t=" ++ decimal p.iterations)
        ∷ (codes "p=" ++ decimal p.parallelism)
        ∷ [])
      ≡ ok (p.memory_kib, p.iterations, p.parallelism)
unfolding cost_values
costs_read p (m, t, l, u) =
    rw
      (
        cost_value-decimal (codes "m=") p.memory_kib m,
        cost_value-decimal (codes "t=") p.iterations t,
        cost_value-decimal (codes "p=") p.parallelism (omega arith),
      )
      (ground (arith, l, u))

parse_cost-cost_field :
    (p : Params)
    → Fits p
    → parse_cost (cost_field p) ≡ ok (p.memory_kib, p.iterations, p.parallelism)
unfolding parse_cost
parse_cost-cost_field p f =
    ap cost_values (
      split-join b',' _ (λ e. cc)
        (
          part-Lacks b',' p.memory_kib b'm' refl refl refl,
          (
            part-Lacks b',' p.iterations b't' refl refl refl,
            (part-Lacks b',' p.parallelism b'p' refl refl refl, tt),
          ),
        ))
    ∙ costs_read p f

Lacks-append : (c : ℕ) (s t : Bytes) → Lacks c s → Lacks c t → Lacks c (s ++ t)
Lacks-append c [] t h k = k
Lacks-append c (x ∷ s) t h k = (h.0, Lacks-append c s t h.1 k)

cost_field-Lacks : (p : Params) → Lacks b'$' (cost_field p)
unfolding join
cost_field-Lacks p =
    let m = part-Lacks b'$' p.memory_kib b'm' refl refl refl in
    let t = part-Lacks b'$' p.iterations b't' refl refl refl in
    let l = part-Lacks b'$' p.parallelism b'p' refl refl refl in
    let comma : Lacks b'$' (b',' ∷ []) = (omega arith, tt) in
    Lacks-append b'$' (codes "m=" ++ decimal p.memory_kib)
      (b',' ∷ (codes "t=" ++ decimal p.iterations) ++ b',' ∷ (codes "p=" ++ decimal p.parallelism))
      m
      (
        comma.0,
        Lacks-append b'$' (codes "t=" ++ decimal p.iterations)
            (b',' ∷ (codes "p=" ++ decimal p.parallelism)) t (comma.0, l),
      )

digit-plain : (v : ℕ) → not (digit std v == b'$') ≡ true
unfolding digit
digit-plain v = ground arith

encode-Lacks : (s : Bytes) → Lacks b'$' (encode std s)
encode-Lacks s =
    Lacks-by b'$' (encode std s) (all_of-encode std (λ d. not (d == b'$')) digit-plain s)

version_read : decode_version (codes "v=" ++ decimal argon2_version) ≡ ok tt
unfolding decode_version decimal cut_prefix atoi
version_read = refl

version-Lacks : Lacks b'$' (codes "v=" ++ decimal argon2_version)
version-Lacks = part-Lacks b'$' argon2_version b'v' refl refl refl

name-Lacks : Lacks b'$' (codes "argon2id")
unfolding all_of
name-Lacks = Lacks-by b'$' (codes "argon2id") refl

-- A salt and a tag of the lengths that the format allows.
abbrev pub IsSalt : Bytes → Type 0
IsSalt salt = All IsByte salt × (is_empty salt ≡ false) × (length salt ≤ max_salt_bytes)

abbrev pub IsTag : Bytes → Type 0
IsTag tag = All IsByte tag × (min_tag_bytes ≤ length tag) × (length tag ≤ max_tag_bytes)

fields_read :
    (accepted : List Params) (p q : Params) (salt tag : Bytes)
    → Fits p
    → IsSalt salt
    → IsTag tag
    → find_cost accepted (stored_params (p.memory_kib, p.iterations, p.parallelism)) ≡ some q
    → decode_fields accepted (
        []
        ∷ codes "argon2id"
        ∷ (codes "v=" ++ decimal argon2_version)
        ∷ cost_field p
        ∷ encode std salt
        ∷ encode std tag
        ∷ [])
      ≡ ok (q, salt, tag)
unfolding decode_fields str_eq
fields_read accepted p q salt tag f (sb, sn, sl) (tb, tl, tu) c =
    rw
      (
        version_read,
        parse_cost-cost_field p f,
        decode-encode-std true salt sb,
        decode-encode-std true tag tb,
        c,
      )
      (ground (arith, sn, sl, tl, tu))

nonempty : (p : Bytes) (ps : List Bytes) → p ∷ ps ≢ []
nonempty p ps e = cc

-- A stored hash is read back as its salt and tag and as the accepted set with its cost.
pub decode_hash-encode_hash :
    (accepted : List Params) (p q : Params) (salt tag : Bytes)
    → Fits p
    → IsSalt salt
    → IsTag tag
    → find_cost accepted (stored_params (p.memory_kib, p.iterations, p.parallelism)) ≡ some q
    → decode_hash accepted (encode_hash p salt tag) ≡ ok (q, salt, tag)
unfolding decode_hash encode_hash
decode_hash-encode_hash accepted p q salt tag f s t c =
    let more =
      codes "argon2id"
      ∷ (codes "v=" ++ decimal argon2_version)
      ∷ cost_field p
      ∷ encode std salt
      ∷ encode std tag
      ∷ [] in
    ap (decode_fields accepted) (
      split-join b'$' ([] ∷ more) (nonempty [] more) (
        tt,
        (
          name-Lacks,
          (version-Lacks, (cost_field-Lacks p, (encode-Lacks salt, (encode-Lacks tag, tt)))),
        ),
      ))
    ∙ fields_read accepted p q salt tag f s t c
