-- ===== src/Authz/Closed.antt =====
-- A catalog that `NewCatalog` returns is closed: its roles bundle only what it declares.
use nise_and_go.Common.{
  ◌≡◌, sym, ◌∙◌, inl, inr, true, false, ◌||◌, List, [], ◌∷◌, some, arith, Bool-cases,
}
use nise_and_go.Common.Text.{Bytes, str_eq, str_eq-eq, All}
use nise_and_go.Common.Result.{ok}
use nise_and_go.Common.Keys.{contains, contains-sort, Distinct}
use nise_and_go.Authz.Permission.{Permission, Role, all, valid}
use nise_and_go.Authz.Catalog.{
  Catalog, new_catalog, declare, all_declared, bundle, names_of, role, find_role, declares,
}

all_declared-contains :
    (declared ps : List Permission) (k : Permission)
    → all_declared declared ps ≡ ok tt
    → contains ps k ≡ true
    → contains declared k ≡ true
unfolding all_declared contains
all_declared-contains declared [] k h c = cc
all_declared-contains declared (p ∷ ps) k h c =
    ground (arith, all_declared-contains declared ps k, str_eq-eq p k)

-- Every role of a list bundles only declared permissions.
abbrev pub AreDeclared : List Permission → List Role → Type 0
AreDeclared declared =
    All (λ r. (p : Permission) → contains r.permissions.held p ≡ true → contains declared p ≡ true)

role_declared :
    (declared : List Permission) (r : Role)
    → all_declared declared (all r.permissions) ≡ ok tt
    → (p : Permission) → contains r.permissions.held p ≡ true
    → contains declared p ≡ true
unfolding all
role_declared declared r h p c =
    all_declared-contains declared (all r.permissions) p h (contains-sort r.permissions.held p ∙ c)

bundle_step :
    (declared : List Permission) (bundles : List Role) (r : Role) (rs : List Role) {out : List Role}
    → bundle declared bundles (r ∷ rs) ≡ ok out
    → (contains (names_of bundles) r.name ≡ false)
      × (all_declared declared (all r.permissions) ≡ ok tt)
      × (bundle declared (r ∷ bundles) rs ≡ ok out)
unfolding bundle
bundle_step declared bundles r rs {out} h = ground (arith, h)

bundle_end :
    (declared : List Permission) (bundles : List Role) {out : List Role}
    → bundle declared bundles [] ≡ ok out
    → bundles ≡ out
unfolding bundle
bundle_end declared bundles h = cc

bundle-AreDeclared :
    (declared : List Permission) (bundles rs : List Role) {out : List Role}
    → bundle declared bundles rs ≡ ok out
    → Distinct (names_of bundles)
    → AreDeclared declared bundles
    → Distinct (names_of out) × AreDeclared declared out
bundle-AreDeclared declared bundles [] {out} h d a =
    rw (← bundle_end declared bundles {out = out} h) (d, a)
bundle-AreDeclared declared bundles (r ∷ rs) {out} h d a =
    let (fresh, good, rest) = bundle_step declared bundles r rs {out = out} h in
    bundle-AreDeclared declared (r ∷ bundles) rs {out = out} rest (fresh, d)
      (role_declared declared r good, a)

declare_lem :
    (declared ps : List Permission) (k : Permission) {out : List Permission}
    → declare declared ps ≡ ok out
    → (contains out k ≡ (contains declared k || contains ps k))
      × (contains ps k ≡ true → valid k ≡ true)
unfolding declare contains
declare_lem declared [] k h = ground (arith, h)
declare_lem declared (p ∷ ps) k {out} h =
    ground (arith, declare_lem (p ∷ declared) ps k {out = out}, str_eq-eq p k, h)

new_catalog_steps :
    (ps : List Permission) (rs : List Role) {c : Catalog}
    → new_catalog ps rs ≡ ok c
    → (declare [] ps ≡ ok c.permissions) × (bundle c.permissions [] rs ≡ ok c.roles)
unfolding new_catalog
new_catalog_steps ps rs {c} h = ground (arith, h)

find_role_sound :
    (rs : List Role) (name : Bytes) {r : Role} → find_role rs name ≡ some r → r.name ≡ name
unfolding find_role
find_role_sound [] name h = cc
find_role_sound (x ∷ rs) name {r} h =
    ground (arith, str_eq-eq x.name name, find_role_sound rs name {r = r})

find_role-AreDeclared :
    (declared : List Permission) (rs : List Role) (name : Bytes) {r : Role}
    → AreDeclared declared rs
    → find_role rs name ≡ some r
    → (p : Permission) → contains r.permissions.held p ≡ true
    → contains declared p ≡ true
unfolding find_role
find_role-AreDeclared declared [] name a h p c = cc
find_role-AreDeclared declared (x ∷ rs) name {r} a h p c = elim (Bool-cases (str_eq x.name name)) [
  | inl e ↦ a.0 p (ground (arith, e, h, c))
  | inr e ↦ find_role-AreDeclared declared rs name {r = r} a.1 (ground (arith, e, h)) p c
]

-- A catalog that `NewCatalog` returns declares exactly the permissions given, all of them well
-- formed; its role names differ; and a role that it finds bears the name asked for and bundles only
-- permissions that the catalog declares.
pub new_catalog_closed :
    (ps : List Permission) (rs : List Role) {c : Catalog}
    → new_catalog ps rs ≡ ok c
    → ((p : Permission) → declares c p ≡ contains ps p)
      × ((p : Permission) → declares c p ≡ true → valid p ≡ true)
      × Distinct (names_of c.roles)
      × ((name : Bytes) (r : Role)
          → role c name ≡ some r
          → (r.name ≡ name)
            × ((p : Permission) → contains r.permissions.held p ≡ true → declares c p ≡ true))
unfolding declares role contains
new_catalog_closed ps rs {c} h =
    let (first, second) = new_catalog_steps ps rs {c = c} h in
    let declared = λ (k : Permission). declare_lem [] ps k {out = c.permissions} first in
    let (distinct, closed) = bundle-AreDeclared c.permissions [] rs {out = c.roles} second tt tt in
    (
      λ p. (declared p).0,
      λ p e. (declared p).1 (sym (declared p).0 ∙ e),
      distinct,
      λ name r found. (
        find_role_sound c.roles name {r = r} found,
        find_role-AreDeclared c.permissions c.roles name {r = r} closed found,
      ),
    )
