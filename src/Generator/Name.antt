-- ===== src/Generator/Name.antt =====
-- internal/generator/name.go: ValidateName and ValidateModulePath. An error is its rule, without the texts
-- of its problem and its remedy.
pub mod Runs
pub mod Characters
pub mod Rules
pub mod Grammar
pub mod Elements
use nise_and_go.Common.{
  ℕ, ◌+◌, Bool, true, false, ◌&&◌, ◌||◌, not, List, [], ◌∷◌, Option, none, some, ltb, ◌==◌,
  if◌then◌else◌, length,
}
use nise_and_go.Common.Text.{Bytes, codes, str_eq, is_empty, between, split, cut}
use nise_and_go.Common.Affix.{has_prefix, has_suffix, to_lower}
use nise_and_go.Common.Keys.{contains}

abbrev pub max_name_len : ℕ
max_name_len = 64

abbrev pub max_module_path_len : ℕ
max_module_path_len = 255

abbrev pub go_keywords : List Bytes
go_keywords =
    codes "break"
    ∷ codes "case"
    ∷ codes "chan"
    ∷ codes "const"
    ∷ codes "continue"
    ∷ codes "default"
    ∷ codes "defer"
    ∷ codes "else"
    ∷ codes "fallthrough"
    ∷ codes "for"
    ∷ codes "func"
    ∷ codes "go"
    ∷ codes "goto"
    ∷ codes "if"
    ∷ codes "import"
    ∷ codes "interface"
    ∷ codes "map"
    ∷ codes "package"
    ∷ codes "range"
    ∷ codes "return"
    ∷ codes "select"
    ∷ codes "struct"
    ∷ codes "switch"
    ∷ codes "type"
    ∷ codes "var"
    ∷ []

abbrev pub windows_device_names : List Bytes
windows_device_names =
    codes "con"
    ∷ codes "prn"
    ∷ codes "aux"
    ∷ codes "nul"
    ∷ codes "com0"
    ∷ codes "com1"
    ∷ codes "com2"
    ∷ codes "com3"
    ∷ codes "com4"
    ∷ codes "com5"
    ∷ codes "com6"
    ∷ codes "com7"
    ∷ codes "com8"
    ∷ codes "com9"
    ∷ codes "lpt0"
    ∷ codes "lpt1"
    ∷ codes "lpt2"
    ∷ codes "lpt3"
    ∷ codes "lpt4"
    ∷ codes "lpt5"
    ∷ codes "lpt6"
    ∷ codes "lpt7"
    ∷ codes "lpt8"
    ∷ codes "lpt9"
    ∷ []

pub data NameError : Type 0 where
  empty_name : NameError
  too_long control_or_non_ascii : ℕ → NameError
  path_separator relative_element leading_dot stripped_end leading_space : NameError
  device_name uppercase : Bytes → NameError
  go_keyword bad_name backslash empty_element dot_element bad_module_path : NameError

-- On bytes: a rune that is not ASCII has bytes beyond the printable ones only.
abbrev pub is_control_or_non_ascii : ℕ → Bool
is_control_or_non_ascii c = ltb c 32 || ltb 126 c

-- `strings.IndexFunc(s, f)`
unfoldable pub index_func : (ℕ → Bool) → Bytes → Option ℕ
index_func f [] = none
index_func f (c ∷ s) =
    let rest = index_func f s in
    if f c then some 0 else elim rest [ none ↦ none | some i ↦ some (i + 1) ]

-- `strings.ContainsAny`, whose characters are those of a test.
unfoldable pub contains_any : (ℕ → Bool) → Bytes → Bool
contains_any f [] = false
contains_any f (c ∷ s) = f c || contains_any f s

-- What `[p]*(sep[p]+)*` matches, if the part before it ended in a character of `p` (`after`) or in `sep`.
unfoldable pub runs : (ℕ → Bool) → ℕ → Bool → Bytes → Bool
runs p sep after [] = after
runs p sep after (c ∷ s) = let rest = runs p sep (p c) s in (p c || (c == sep && after)) && rest

abbrev pub lower_letter : ℕ → Bool
lower_letter c = between b'a' b'z' c

abbrev pub lower_digit : ℕ → Bool
lower_digit c = between b'a' b'z' c || between b'0' b'9' c

-- `nameRE`
unfoldable pub matches_name : Bytes → Bool
unfolding runs
matches_name [] = false
matches_name (c ∷ s) = lower_letter c && runs lower_digit b'-' true s

abbrev pub letter_digit : ℕ → Bool
letter_digit c = between b'A' b'Z' c || between b'a' b'z' c || between b'0' b'9' c

abbrev pub path_character : ℕ → Bool
path_character c = letter_digit c || c == b'.' || c == b'_' || c == b'~' || c == b'-'

-- `modulePathRE`
unfoldable pub matches_module_path : Bytes → Bool
unfolding runs
matches_module_path [] = false
matches_module_path (c ∷ s) = letter_digit c && runs path_character b'/' true s

-- The name up to its first dot.
unfoldable pub base_of : Bytes → Bytes
unfolding cut
base_of name = elim (cut b'.' name) [ none ↦ name | some (a, b) ↦ a ]

abbrev pub is_separator : ℕ → Bool
is_separator c = c == b'/' || c == b'\\'

unfoldable pub is_device_name : Bytes → Bool
unfolding contains
is_device_name s = contains windows_device_names s

unfoldable pub is_go_keyword : Bytes → Bool
unfolding contains
is_go_keyword s = contains go_keywords s

-- The rules after the one on characters, for printable ASCII.
unfoldable pub printable_name : Bytes → Option NameError
unfolding contains_any str_eq has_prefix has_suffix base_of is_device_name is_go_keyword to_lower
    matches_name
printable_name name =
    if contains_any is_separator name
    then some path_separator
    else if str_eq name (codes ".") || str_eq name (codes "..")
    then some relative_element
    else if has_prefix name (codes ".")
    then some leading_dot
    else if has_suffix name (codes ".") || has_suffix name (codes " ")
    then some stripped_end
    else if has_prefix name (codes " ")
    then some leading_space
    else if is_device_name (to_lower (base_of name))
    then some (device_name (to_lower (base_of name)))
    else if not (str_eq name (to_lower name))
    then some (uppercase (to_lower name))
    else if is_go_keyword name
    then some go_keyword
    else if not (matches_name name)
    then some bad_name
    else none

unfoldable pub validate_name : Bytes → Option NameError
unfolding index_func printable_name
validate_name name =
    if is_empty name
    then some empty_name
    else if ltb max_name_len (length name)
    then some (too_long (length name))
    else elim (index_func is_control_or_non_ascii name) [
      | some i ↦ some (control_or_non_ascii i)
      | none ↦ printable_name name
    ]

-- The loop over the elements.
unfoldable pub element_error : List Bytes → Option NameError
unfolding str_eq
element_error [] = none
element_error (element ∷ elements) =
    let rest = element_error elements in
    if is_empty element
    then some empty_element
    else if str_eq element (codes ".") || str_eq element (codes "..")
    then some dot_element
    else rest

unfoldable pub validate_module_path : Bytes → Option NameError
unfolding index_func contains_any split element_error matches_module_path
validate_module_path path =
    if is_empty path
    then some empty_name
    else if ltb max_module_path_len (length path)
    then some (too_long (length path))
    else elim (index_func is_control_or_non_ascii path) [
      | some i ↦ some (control_or_non_ascii i)
      | none ↦
          if contains_any (λ c. c == b'\\') path
          then some backslash
          else elim (element_error (split b'/' path)) [
            | some e ↦ some e
            | none ↦ if not (matches_module_path path) then some bad_module_path else none
          ]
    ]
