-- ===== src/Generator/Name/Elements.antt =====
-- Which module paths are accepted.
use nise_and_go.Common.{
  ◌≤◌, ◌≡◌, ◌↔◌, refl, sym, ◌∙◌, Bool, true, false, ◌&&◌, ◌||◌, not, List, [], ◌∷◌, Option, none,
  some, arith, ltb, ◌==◌, length,
}
use nise_and_go.Common.Text.{Bytes, codes, is_empty, all_of, split, str_eq}
use nise_and_go.Generator.Name.{
  NameError, empty_name, too_long, backslash, empty_element, dot_element, bad_module_path,
  letter_digit, path_character, matches_module_path, index_func, contains_any,
  is_control_or_non_ascii, validate_module_path, element_error, max_module_path_len,
}
use nise_and_go.Generator.Name.Runs.{is_run, starts_in, matches_module_path-parts, runs-characters}
use nise_and_go.Generator.Name.Rules.{
  passed, not-false, not-true, starts_in-full, ascii_rules, short_enough, not_long, each-true,
}
use nise_and_go.Generator.Name.Characters.{all_of_mono, index_func-none, contains_any-none}

matches_module_path-characters :
    (s : Bytes)
    → matches_module_path s ≡ true
    → all_of (λ c. path_character c || c == b'/') s ≡ true
unfolding matches_module_path all_of
matches_module_path-characters [] h = refl
matches_module_path-characters (c ∷ s) h =
    ground (arith, h, runs-characters path_character b'/' true s)

abbrev pub is_dots : Bytes → Bool
is_dots w = str_eq w (codes ".") || str_eq w (codes "..")

-- An element of a path: characters of the class, and not `.` or `..`.
abbrev pub path_element : Bytes → Bool
path_element w = is_run path_character w && not (is_dots w)

elements_sound :
    (ws : List Bytes)
    → element_error ws ≡ none
    → all_of (is_run path_character) ws ≡ true
    → all_of path_element ws ≡ true
unfolding all_of element_error
elements_sound [] h k = refl
elements_sound (w ∷ ws) h k =
    let (full, h1) = passed (is_empty w) empty_element _ h in
    let (dots, h2) = passed (is_dots w) dot_element _ h1 in
    let (run, k1) = each-true (is_run path_character w) (all_of (is_run path_character) ws) k in
    rw (run, dots) (elements_sound ws h2 k1)

elements_complete :
    (ws : List Bytes)
    → all_of path_element ws ≡ true
    → (element_error ws ≡ none) × (all_of (is_run path_character) ws ≡ true)
unfolding all_of element_error
elements_complete [] h = (refl, refl)
elements_complete (w ∷ ws) h =
    let (this, more) = each-true (path_element w) (all_of path_element ws) h in
    let (run, plain) = each-true (is_run path_character w) (not (is_dots w)) this in
    let (some_there, chars) = each-true (not (is_empty w)) (all_of path_character w) run in
    let (e, k) = elements_complete ws more in
    let full : is_empty w ≡ false = ground (arith, some_there) in
    let dots : is_dots w ≡ false = not-true (is_dots w) plain in (rw (full, dots) e, rw (run) k)

path_rules :
    (o r : Option NameError)
    → elim o [ some e ↦ some e | none ↦ r ] ≡ none
    → (o ≡ none) × (r ≡ none)
path_rules none r h = (refl, h)
path_rules (some i) r h = cc

paths_rejected :
    (s : Bytes)
    → validate_module_path s ≡ none
    → (ltb max_module_path_len (length s) ≡ false)
      × (element_error (split b'/' s) ≡ none)
      × (matches_module_path s ≡ true)
unfolding validate_module_path
paths_rejected s h =
    let (full, h1) = passed (is_empty s) empty_name _ h in
    let (short, h2) = passed (ltb max_module_path_len (length s)) (too_long (length s)) _ h1 in
    let (ascii, h3) = ascii_rules (index_func is_control_or_non_ascii s) _ h2 in
    let (slash, h4) = passed (contains_any (λ c. c == b'\\') s) backslash _ h3 in
    let (elements, h5) = path_rules (element_error (split b'/' s)) _ h4 in
    let (shape, h6) = passed (not (matches_module_path s)) bad_module_path none h5 in
    (short, elements, not-false (matches_module_path s) shape)

-- `ValidateModulePath` accepts a path exactly if it has at most 255 bytes, starts with a letter or a digit,
-- and every element between its slashes is a nonempty run of letters, digits and `.`, `_`, `~`, `-` other
-- than `.` and `..`.
pub validate_module_path_iff :
    (path : Bytes)
    → (validate_module_path path ≡ none) ↔ (
        (length path ≤ max_module_path_len)
        × (starts_in letter_digit path ≡ true)
        × (all_of path_element (split b'/' path) ≡ true))
unfolding validate_module_path
validate_module_path_iff path = (
  λ h.
      let (short, elements, m) = paths_rejected path h in
      let (first, parts) =
        each-true (starts_in letter_digit path) (all_of (is_run path_character) (split b'/' path))
          (sym (matches_module_path-parts path) ∙ m) in
      (
        short_enough (length path) max_module_path_len short,
        first,
        elements_sound (split b'/' path) elements parts,
      ),
  λ (len, first, parts).
      let (elements, run) = elements_complete (split b'/' path) parts in
      let m : matches_module_path path ≡ true =
        matches_module_path-parts path ∙ rw (first, run) refl in
      let full : is_empty path ≡ false = starts_in-full letter_digit path first in
      let short : ltb max_module_path_len (length path) ≡ false =
        not_long (length path) max_module_path_len len in
      let chars = matches_module_path-characters path m in
      let ascii = index_func-none is_control_or_non_ascii path (
        all_of_mono (λ c. path_character c || c == b'/') (λ d. not (is_control_or_non_ascii d)) path
          (λ d q. ground (arith, q)) chars) in
      let slash =
        contains_any-none (λ c. c == b'\\') path
          (all_of_mono (λ c. path_character c || c == b'/') (λ d. not (d == b'\\')) path
            (λ d q. ground (arith, q)) chars) in
      rw (full, short, ascii, slash, elements, m) refl,
)
