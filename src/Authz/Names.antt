-- ===== src/Authz/Names.antt =====
-- runtime/authz/permission.go: the shape of the names.
use nise_and_go.Common.{
  ℕ, ◌≡◌, refl, Bool, true, false, ◌&&◌, ◌||◌, [], ◌∷◌, arith, ltb, ◌==◌, if◌then◌else◌, length,
  Bool-cases, inl, inr,
}
use nise_and_go.Common.Text.{Bytes, between, all_of, is_empty, split}

abbrev pub max_permission_bytes : ℕ
max_permission_bytes = 64

abbrev pub max_role_bytes : ℕ
max_role_bytes = 32

abbrev pub name_character : ℕ → Bool
name_character c = between b'a' b'z' c || between b'0' b'9' c || c == b'_'

abbrev pub starts_with_letter : Bytes → Bool
starts_with_letter [] = false
starts_with_letter (c ∷ s) = between b'a' b'z' c

unfoldable pub valid_name : Bytes → ℕ → Bool
unfolding all_of
valid_name name limit =
    if is_empty name || ltb limit (length name)
    then false
    else starts_with_letter name && all_of name_character name

unfoldable pub valid_dotted : Bytes → ℕ → Bool
unfolding split valid_name
valid_dotted name limit =
    if is_empty name || ltb limit (length name)
    then false
    else let segments = split b'.' name in
      if ltb (length segments) 2 then false else all_of (λ s. valid_name s limit) segments

-- A text of name characters has no dot, so it splits into one segment.
dotless : (s : Bytes) → all_of name_character s ≡ true → split b'.' s ≡ s ∷ []
unfolding all_of split
dotless [] h = refl
dotless (c ∷ s) h = ground (arith, dotless s)

valid_name-characters :
    (s : Bytes) (limit : ℕ) → valid_name s limit ≡ true → all_of name_character s ≡ true
unfolding valid_name
valid_name-characters s limit h = ground arith

-- No name is both a permission and a role name, whatever the two limits: a permission has a dot.
pub valid_dotted-valid_name :
    (s : Bytes) (limit bound : ℕ) → valid_dotted s limit ≡ true → valid_name s bound ≡ false
unfolding valid_dotted
valid_dotted-valid_name s limit bound h = elim (Bool-cases (valid_name s bound)) [
  | inr e ↦ e
  | inl e ↦
      let one = dotless s (valid_name-characters s bound e) in
      let pair : ltb (length (split b'.' s)) 2 ≡ false = ground arith in
      absurd (ground (arith, one, pair))
]
