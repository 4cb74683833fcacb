-- ===== src/Authz/Catalog.antt =====
-- runtime/authz/catalog.go. A Go map from role names to roles is the list of its roles.
use nise_and_go.Common.{
  ℕ, Bool, not, List, [], ◌∷◌, ◌++◌, Option, none, some, ltb, if◌then◌else◌, length, map,
}
use nise_and_go.Common.Text.{Bytes, is_empty, str_eq}
use nise_and_go.Common.Result.{Result, ok, ◌>>=◌, ◌>>◌, fail_if}
use nise_and_go.Common.Keys.{contains, sort}
use nise_and_go.Common.Keys.Ascending.{compact}
use nise_and_go.Authz.Permission.{
  Set, Permission, Role, AuthzError, permission_name, catalog_unusable, undeclared, valid, all,
  union, role_is_zero,
}

abbrev pub max_catalog_permissions : ℕ
max_catalog_permissions = 512

abbrev pub max_catalog_roles : ℕ
max_catalog_roles = 64

pub record Catalog : Type 0 where
  pub permissions : List Permission
  pub roles : List Role

-- The first loop of `NewCatalog`.
unfoldable pub declare : List Permission → List Permission → Result AuthzError (List Permission)
unfolding contains valid
declare declared [] = ok declared
declare declared (p ∷ ps) = do
  fail_if (not (valid p)) permission_name
  fail_if (contains declared p) catalog_unusable
  declare (p ∷ declared) ps

-- The loop over one role's permissions.
unfoldable pub all_declared : List Permission → List Permission → Result AuthzError (Unit {0})
unfolding contains
all_declared declared [] = ok tt
all_declared declared (p ∷ ps) = do
  fail_if (not (contains declared p)) undeclared
  all_declared declared ps

abbrev pub names_of : List Role → List Bytes
names_of roles = map (λ r. r.name) roles

-- The second loop of `NewCatalog`.
unfoldable pub bundle : List Permission → List Role → List Role → Result AuthzError (List Role)
unfolding contains all all_declared role_is_zero
bundle declared bundles [] = ok bundles
bundle declared bundles (r ∷ rs) = do
  fail_if (role_is_zero r) catalog_unusable
  fail_if (contains (names_of bundles) r.name) catalog_unusable
  all_declared declared (all r.permissions)
  bundle declared (r ∷ bundles) rs

unfoldable pub new_catalog : List Permission → List Role → Result AuthzError Catalog
unfolding declare bundle
new_catalog permissions roles = do
  fail_if (is_empty permissions) catalog_unusable
  fail_if (ltb max_catalog_permissions (length permissions)) catalog_unusable
  fail_if (ltb max_catalog_roles (length roles)) catalog_unusable
  declared ← declare [] permissions
  bundles ← bundle declared [] roles
  ok (record { permissions = declared; roles = bundles })

-- `c.Declares(permission)`
unfoldable pub declares : Catalog → Permission → Bool
declares c p = contains c.permissions p

-- `c.Permissions()`
unfoldable pub catalog_permissions : Catalog → List Permission
catalog_permissions c = sort c.permissions

unfoldable pub find_role : List Role → Bytes → Option Role
find_role [] name = none
find_role (r ∷ rs) name = if str_eq r.name name then some r else find_role rs name

-- `c.Role(name)`
unfoldable pub role : Catalog → Bytes → Option Role
unfolding find_role
role c name = find_role c.roles name

-- `c.RoleNames()`
unfoldable pub role_names : Catalog → List Bytes
role_names c = sort (names_of c.roles)

-- The loop of `Grants`.
unfoldable pub grants_loop : Catalog → Set → List Bytes → List Bytes → Set × List Bytes
unfolding role union
grants_loop c granted unknown [] = (granted, unknown)
grants_loop c granted unknown (n ∷ ns) = elim (role c n) [
  | none ↦ grants_loop c granted (unknown ++ n ∷ []) ns
  | some r ↦ grants_loop c (union granted r.permissions) unknown ns
]

unfoldable pub grants : Catalog → List Bytes → Set × List Bytes
unfolding grants_loop compact
grants c names =
    let (granted, unknown) = grants_loop c (record { held = [] }) [] names in
    (granted, compact (sort unknown))
