-- ===== src/Authz/Permission.antt =====
-- runtime/authz/permission.go: permission sets and roles. A Go map without values is the list of
-- its keys, each once, in some order.
use nise_and_go.Common.{ℕ, Bool, true, false, not, List, [], ◌∷◌, ltb, if◌then◌else◌, length}
use nise_and_go.Common.Text.{Bytes, is_empty}
use nise_and_go.Common.Result.{Result, ok, ◌>>=◌, ◌>>◌, fail_if}
use nise_and_go.Common.Keys.{contains, sort}
use nise_and_go.Authz.Names.{valid_name, valid_dotted, max_permission_bytes, max_role_bytes}

pub data AuthzError : Type 0 where
  permission_name role_name catalog_unusable undeclared : AuthzError

-- A permission is its name.
abbrev pub Permission : Type 0
Permission = Bytes

unfoldable pub new_permission : Bytes → Result AuthzError Permission
new_permission name = do
  fail_if (not (valid_dotted name max_permission_bytes)) permission_name
  ok name

-- `p.Valid()`
unfoldable pub valid : Permission → Bool
valid p = valid_dotted p max_permission_bytes

pub record Set : Type 0 where
  pub held : List Permission

-- `held[p] = struct{}{}`
unfoldable pub put : Permission → List Permission → List Permission
unfolding contains
put p held = if contains held p then held else p ∷ held

-- The loop of `NewSet`.
unfoldable pub put_valid : List Permission → List Permission → Result AuthzError (List Permission)
unfolding put valid
put_valid held [] = ok held
put_valid held (p ∷ ps) = do fail_if (not (valid p)) permission_name; put_valid (put p held) ps

unfoldable pub new_set : List Permission → Result AuthzError Set
unfolding put_valid
new_set permissions = do held ← put_valid [] permissions; ok (record { held = held })

-- `s.Has(permission)`
unfoldable pub has : Set → Permission → Bool
has s p = if not (valid p) then false else contains s.held p

-- `s.HasAll(permissions...)`
unfoldable pub has_all : Set → List Permission → Bool
unfolding has
has_all s [] = true
has_all s (p ∷ ps) = if not (has s p) then false else has_all s ps

-- `s.Len()`
unfoldable pub len : Set → ℕ
len s = length s.held

-- `s.All()`
unfoldable pub all : Set → List Permission
all s = sort s.held

-- `maps.Copy(held, other)`
unfoldable pub copy : List Permission → List Permission → List Permission
unfolding put
copy held [] = held
copy held (p ∷ ps) = copy (put p held) ps

-- `s.Union(other)`
unfoldable pub union : Set → Set → Set
unfolding copy
union s other = record { held = copy (copy [] s.held) other.held }

pub record Role : Type 0 where
  pub name : Bytes
  pub permissions : Set

abbrev pub max_role_permissions : ℕ
max_role_permissions = 512

unfoldable pub new_role : Bytes → List Permission → Result AuthzError Role
unfolding new_set
new_role name permissions = do
  fail_if (not (valid_name name max_role_bytes)) role_name
  fail_if (ltb max_role_permissions (length permissions)) catalog_unusable
  set ← new_set permissions
  ok (record { name = name; permissions = set })

-- `r.IsZero()`
unfoldable pub role_is_zero : Role → Bool
role_is_zero r = is_empty r.name
