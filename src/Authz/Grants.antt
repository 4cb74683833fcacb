-- ===== src/Authz/Grants.antt =====
-- What `Grants` grants, and which names it reports.
use nise_and_go.Common.{
  ◌≡◌, refl, sym, ◌∙◌, inl, inr, Bool, true, false, ◌&&◌, ◌||◌, not, List, [], ◌∷◌, ◌++◌, none,
  some, arith, Bool-cases, Option-cases,
}
use nise_and_go.Common.Text.{Bytes, str_eq-eq}
use nise_and_go.Common.Keys.{contains, sort, contains-sort, IsSorted}
use nise_and_go.Common.Keys.Ascending.{compact-contains, compact-sort-IsSorted}
use nise_and_go.Common.Maybe.{is_some}
use nise_and_go.Common.Result.{ok}
use nise_and_go.Authz.Closed.{new_catalog_closed}
use nise_and_go.Authz.Permission.{has, valid, Set, Permission, Role, union}
use nise_and_go.Authz.Sets.{union-contains}
use nise_and_go.Authz.Catalog.{Catalog, role, grants_loop, grants, new_catalog, declares}

-- Some named role of the catalog bundles the permission.
abbrev pub bundled : Catalog → List Bytes → Permission → Bool
bundled c [] p = false
bundled c (n ∷ ns) p =
    elim (role c n) [ none ↦ false | some r ↦ contains r.permissions.held p ] || bundled c ns p

contains-append :
    (xs ys : List Bytes) (k : Bytes) → contains (xs ++ ys) k ≡ (contains xs k || contains ys k)
unfolding contains
contains-append [] ys k = refl
contains-append (x ∷ xs) ys k = ground (arith, contains-append xs ys k)

-- The names of a list that are not roles of the catalog.
abbrev pub is_unknown : Catalog → List Bytes → Bytes → Bool
is_unknown c names k = contains names k && not (is_some (role c k))

grants_loop_held :
    (c : Catalog) (granted : Set) (unknown names : List Bytes) (p : Permission)
    → contains (grants_loop c granted unknown names).0.held p
      ≡ (contains granted.held p || bundled c names p)
unfolding grants_loop
grants_loop_held c granted unknown [] p = ground arith
grants_loop_held c granted unknown (n ∷ ns) p = elim (Option-cases (role c n)) [
  | inl e ↦ ground (arith, e, grants_loop_held c granted (unknown ++ n ∷ []) ns p)
  | inr (r, e) ↦ ground (
    arith,
    e,
    grants_loop_held c (union granted r.permissions) unknown ns p,
    union-contains granted r.permissions p,
  )
]

grants_loop_unknown :
    (c : Catalog) (granted : Set) (unknown names : List Bytes) (k : Bytes)
    → contains (grants_loop c granted unknown names).1 k
      ≡ (contains unknown k || is_unknown c names k)
unfolding grants_loop contains
grants_loop_unknown c granted unknown [] k = ground arith
grants_loop_unknown c granted unknown (n ∷ ns) k = elim (Option-cases (role c n)) [
  | inl e ↦ ground (
    arith,
    e,
    grants_loop_unknown c granted (unknown ++ n ∷ []) ns k,
    contains-append unknown (n ∷ []) k,
    str_eq-eq n k,
  )
  | inr (r, e) ↦
      ground
        (arith, e, grants_loop_unknown c (union granted r.permissions) unknown ns k, str_eq-eq n k)
]

grants_loop_start :
    (c : Catalog) (names : List Bytes) (p : Permission)
    → contains (grants_loop c (record { held = [] }) [] names).0.held p ≡ bundled c names p
unfolding contains
grants_loop_start c names p = grants_loop_held c (record { held = [] }) [] names p

-- `Grants` holds a well-formed permission exactly when one of the names is a role of the catalog
-- that bundles it, so a stale name adds nothing and takes nothing away. Its second result is the
-- strictly ascending list of the names that are no roles of the catalog.
pub grants_lem :
    (c : Catalog) (names : List Bytes)
    → ((p : Permission) → has (grants c names).0 p ≡ (valid p && bundled c names p))
      × IsSorted (grants c names).1
      × ((k : Bytes) → contains (grants c names).1 k ≡ is_unknown c names k)
unfolding grants contains has
grants_lem c names =
    let unknown = (grants_loop c (record { held = [] }) [] names).1 in
    (
      λ p. ground (arith, grants_loop_start c names p),
      compact-sort-IsSorted unknown,
      λ k.
          compact-contains (sort unknown) k
          ∙ contains-sort unknown k
          ∙ grants_loop_unknown c (record { held = [] }) [] names k,
    )

bundled_declared :
    (ps : List Permission) (rs : List Role) {c : Catalog} (names : List Bytes) (p : Permission)
    → new_catalog ps rs ≡ ok c
    → bundled c names p ≡ true
    → declares c p ≡ true
bundled_declared ps rs {c} [] p h b = cc
bundled_declared ps rs {c} (n ∷ ns) p h b = elim (Option-cases (role c n)) [
  | inl e ↦ bundled_declared ps rs {c = c} ns p h (ground (arith, e, b))
  | inr (r, e) ↦ elim (Bool-cases (contains r.permissions.held p)) [
    | inl f ↦ ((new_catalog_closed ps rs {c = c} h).3 n r e).1 p f
    | inr f ↦ bundled_declared ps rs {c = c} ns p h (ground (arith, e, f, b))
  ]
]

-- A catalog that `NewCatalog` returned never grants a permission that was not declared to it,
-- whatever names are asked for.
pub grants_declared :
    (ps : List Permission) (rs : List Role) {c : Catalog} (names : List Bytes) (p : Permission)
    → new_catalog ps rs ≡ ok c
    → has (grants c names).0 p ≡ true
    → contains ps p ≡ true
grants_declared ps rs {c} names p h g =
    let same = (grants_lem c names).0 p in
    let b = bundled_declared ps rs {c = c} names p h (ground (arith, same, g)) in
    sym ((new_catalog_closed ps rs {c = c} h).0 p) ∙ b
