-- ===== src/Authz/Examples.antt =====
-- Tests of runtime/authz, and its theorems at concrete inputs.
use nise_and_go.Common.{◌≡◌, refl, true, ◌&&◌, List, [], ◌∷◌}
use nise_and_go.Common.Text.{Bytes, codes, str_eq}
use nise_and_go.Common.Result.{ok}
use nise_and_go.Common.Keys.{contains, sort, IsSorted, Distinct}
use nise_and_go.Authz.Names.{valid_dotted}
use nise_and_go.Authz.Permission.{Set, Permission, Role, new_set, has, valid}
use nise_and_go.Authz.Sets.{IsWf, new_set_lem}
use nise_and_go.Authz.Catalog.{Catalog, new_catalog, grants, names_of}
use nise_and_go.Authz.Closed.{new_catalog_closed}
use nise_and_go.Authz.Grants.{grants_lem, bundled, is_unknown}

abbrev create : Permission
create = codes "invoices.create"

abbrev remove : Permission
remove = codes "invoices.delete"

abbrev audit : Permission
audit = codes "audit.read"

abbrev clerk_set : Set
clerk_set = record { held = remove ∷ create ∷ [] }

abbrev auditor_set : Set
auditor_set = record { held = audit ∷ [] }

clerk_set_made : new_set (create ∷ remove ∷ create ∷ []) ≡ ok clerk_set
unfolding new_set valid_dotted str_eq
clerk_set_made = refl

auditor_set_made : new_set (audit ∷ []) ≡ ok auditor_set
unfolding new_set valid_dotted str_eq
auditor_set_made = refl

clerk_set-IsWf : IsWf clerk_set
clerk_set-IsWf = (new_set_lem (create ∷ remove ∷ create ∷ []) {s = clerk_set} clerk_set_made).0

auditor_set-IsWf : IsWf auditor_set
auditor_set-IsWf = (new_set_lem (audit ∷ []) {s = auditor_set} auditor_set_made).0

create_valid : valid_dotted create 64 ≡ true
unfolding valid_dotted
create_valid = refl

abbrev clerk : Role
clerk = record { name = codes "clerk"; permissions = clerk_set }

abbrev auditor : Role
auditor = record { name = codes "auditor"; permissions = auditor_set }

abbrev offices : Catalog
offices = record { permissions = audit ∷ remove ∷ create ∷ []; roles = auditor ∷ clerk ∷ [] }

offices_made : new_catalog (create ∷ remove ∷ audit ∷ []) (clerk ∷ auditor ∷ []) ≡ ok offices
unfolding new_catalog valid_dotted str_eq sort
offices_made = refl

new_catalog_closed_example : Distinct (names_of offices.roles)
new_catalog_closed_example =
    (new_catalog_closed (create ∷ remove ∷ audit ∷ []) (clerk ∷ auditor ∷ []) {c = offices}
      offices_made).2

abbrev asked : List Bytes
asked = codes "clerk" ∷ codes "old" ∷ codes "old" ∷ []

grants_lem_example :
    ((p : Permission) → has (grants offices asked).0 p ≡ (valid p && bundled offices asked p))
    × IsSorted (grants offices asked).1
    × ((k : Bytes) → contains (grants offices asked).1 k ≡ is_unknown offices asked k)
grants_lem_example = grants_lem offices asked

stale_reported : (grants offices asked).1 ≡ codes "old" ∷ []
unfolding grants sort str_eq
stale_reported = refl

create_granted : has (grants offices asked).0 create ≡ true
unfolding grants has valid_dotted str_eq valid
create_granted = refl
