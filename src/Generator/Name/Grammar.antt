-- ===== src/Generator/Name/Grammar.antt =====
-- Which names are accepted.
use nise_and_go.Common.{
  ℕ, ◌≤◌, ◌≡◌, ◌↔◌, refl, sym, ap, ◌∙◌, Bool, true, false, ◌||◌, not, [], ◌∷◌, none, arith, ltb,
  ◌==◌, length,
}
use nise_and_go.Common.Text.{Bytes, codes, is_empty, all_of, between, split, str_eq, str_eq_refl}
use nise_and_go.Common.Affix.{has_prefix, has_suffix, to_lower}
use nise_and_go.Generator.Name.{
  empty_name, too_long, path_separator, relative_element, leading_dot, stripped_end, leading_space,
  device_name, uppercase, go_keyword, bad_name, lower_letter, lower_digit, matches_name, index_func,
  contains_any, is_control_or_non_ascii, is_separator, base_of, printable_name, validate_name,
  is_go_keyword, is_device_name, max_name_len,
}
use nise_and_go.Generator.Name.Runs.{is_run, starts_in, matches_name-parts, runs-characters}
use nise_and_go.Generator.Name.Rules.{
  passed, not-false, starts_in-full, ascii_rules, short_enough, not_long, each-true,
}
use nise_and_go.Generator.Name.Characters.{
  all_of_mono, index_func-none, contains_any-none, cut-none, to_lower_id, no_suffix,
}

abbrev name_character : ℕ → Bool
name_character c = lower_digit c || c == b'-'

matches_name-characters : (s : Bytes) → matches_name s ≡ true → all_of name_character s ≡ true
unfolding matches_name all_of
matches_name-characters [] h = refl
matches_name-characters (c ∷ s) h = ground (arith, h, runs-characters lower_digit b'-' true s)

-- A name of the right characters has no dot and no upper case.
base_of_id : (s : Bytes) → all_of name_character s ≡ true → base_of s ≡ s
unfolding base_of
base_of_id s h =
    rw
      (
        base_of,
        cut-none b'.' s
            (all_of_mono name_character (λ c. not (c == b'.')) s (λ c q. ground (arith, q)) h),
      )
      refl

lower_id : (s : Bytes) → all_of name_character s ≡ true → to_lower s ≡ s
lower_id s h =
    to_lower_id s
      (all_of_mono name_character (λ c. not (between b'A' b'Z' c)) s (λ c q. ground (arith, q)) h)

printable_name_accepts :
    (s : Bytes)
    → matches_name s ≡ true
    → is_go_keyword s ≡ false
    → is_device_name s ≡ false
    → printable_name s ≡ none
unfolding printable_name
printable_name_accepts [] m k w = absurd (ground (arith, m, matches_name))
printable_name_accepts (c ∷ s) m k w =
    let chars = matches_name-characters (c ∷ s) m in
    let letter : lower_letter c ≡ true = ground (arith, m, matches_name) in
    let separator = contains_any-none is_separator (c ∷ s) (
      all_of_mono name_character (λ d. not (is_separator d)) (c ∷ s) (λ d q. ground (arith, q))
        chars) in
    let dot = no_suffix b'.' (c ∷ s) (
      all_of_mono name_character (λ d. not (d == b'.')) (c ∷ s) (λ d q. ground (arith, q)) chars) in
    let space = no_suffix b' ' (c ∷ s) (
      all_of_mono name_character (λ d. not (d == b' ')) (c ∷ s) (λ d q. ground (arith, q)) chars) in
    let no_dot : (c == b'.') ≡ false = ground (arith, letter) in
    let no_space : (c == b' ') ≡ false = ground (arith, letter) in
    let lower = lower_id (c ∷ s) chars in
    let device : is_device_name (to_lower (base_of (c ∷ s))) ≡ false =
      ap (λ t. is_device_name (to_lower t)) (base_of_id (c ∷ s) chars)
      ∙ ap is_device_name lower
      ∙ w in
    let case : str_eq (c ∷ s) (to_lower (c ∷ s)) ≡ true =
      ap (str_eq (c ∷ s)) lower ∙ str_eq_refl (c ∷ s) in
    rw (separator, no_dot, dot, space, no_space, device, case, k, m) refl

printable_name_requires :
    (s : Bytes)
    → printable_name s ≡ none
    → (matches_name s ≡ true)
      × (is_go_keyword s ≡ false)
      × (is_device_name (to_lower (base_of s)) ≡ false)
unfolding printable_name
printable_name_requires s h =
    let (separator, h1) = passed (contains_any is_separator s) path_separator _ h in
    let (relative, h2) =
      passed (str_eq s (codes ".") || str_eq s (codes "..")) relative_element _ h1 in
    let (dot, h3) = passed (has_prefix s (codes ".")) leading_dot _ h2 in
    let (end, h4) =
      passed (has_suffix s (codes ".") || has_suffix s (codes " ")) stripped_end _ h3 in
    let (space, h5) = passed (has_prefix s (codes " ")) leading_space _ h4 in
    let (device, h6) =
      passed (is_device_name (to_lower (base_of s))) (device_name (to_lower (base_of s))) _ h5 in
    let (case, h7) = passed (not (str_eq s (to_lower s))) (uppercase (to_lower s)) _ h6 in
    let (keyword, h8) = passed (is_go_keyword s) go_keyword _ h7 in
    let (shape, h9) = passed (not (matches_name s)) bad_name none h8 in
    (not-false (matches_name s) shape, keyword, device)

names_rejected :
    (s : Bytes)
    → validate_name s ≡ none
    → (ltb max_name_len (length s) ≡ false) × (printable_name s ≡ none)
unfolding validate_name
names_rejected s h =
    let (full, h1) = passed (is_empty s) empty_name _ h in
    let (short, h2) = passed (ltb max_name_len (length s)) (too_long (length s)) _ h1 in
    let (ascii, rules) = ascii_rules (index_func is_control_or_non_ascii s) (printable_name s) h2 in
    (short, rules)

-- `ValidateName` accepts a name exactly if it has at most 64 bytes, starts with a lowercase letter,
-- consists of nonempty parts of lowercase letters and digits between hyphens, and is neither a Go
-- keyword nor a Windows device name.
pub validate_name_iff :
    (name : Bytes)
    → (validate_name name ≡ none) ↔ (
        (length name ≤ max_name_len)
        × (starts_in lower_letter name ≡ true)
        × (all_of (is_run lower_digit) (split b'-' name) ≡ true)
        × (is_go_keyword name ≡ false)
        × (is_device_name name ≡ false))
unfolding validate_name
validate_name_iff name = (
  λ h.
      let (short, rules) = names_rejected name h in
      let (m, k, w) = printable_name_requires name rules in
      let both = sym (matches_name-parts name) ∙ m in
      let (first, parts) =
        each-true (starts_in lower_letter name) (all_of (is_run lower_digit) (split b'-' name))
          both in
      let chars = matches_name-characters name m in
      (
        short_enough (length name) max_name_len short,
        first,
        parts,
        k,
        sym (
              ap (λ t. is_device_name (to_lower t)) (base_of_id name chars)
              ∙ ap is_device_name (lower_id name chars))
            ∙ w,
      ),
  λ (len, first, parts, k, w).
      let m : matches_name name ≡ true = matches_name-parts name ∙ rw (first, parts) refl in
      let full : is_empty name ≡ false = starts_in-full lower_letter name first in
      let short : ltb max_name_len (length name) ≡ false =
        not_long (length name) max_name_len len in
      let ascii = index_func-none is_control_or_non_ascii name (
        all_of_mono name_character (λ d. not (is_control_or_non_ascii d)) name
          (λ d q. ground (arith, q)) (matches_name-characters name m)) in
      rw (full, short, ascii) (printable_name_accepts name m k w),
)
