-- ===== src/Pagination/Key/Ring.antt =====
-- A key ring is a finite map from identifiers to keys.
use nise_and_go.Common.{
  subst, ◌≡◌, refl, sym, ◌↔◌, ◌⊎◌, inl, inr, true, false, List, [], ◌∷◌, some, arith, map,
}
use nise_and_go.Common.Text.{Bytes, str_eq-eq, str_eq_refl}
use nise_and_go.Common.Result.{ok}
use nise_and_go.Common.Keys.{contains, Distinct}
use nise_and_go.Pagination.Key.{Key, KeyRing, check_retired, new_key_ring, ids, find, find_retired}

-- An element of a list, by its position.
abbrev pub In : Key → List Key → Type 0
In k [] = ⊥
In k (x ∷ xs) = (k ≡ x) ⊎ In k xs

abbrev pub keys : KeyRing → List Key
keys r = r.active ∷ r.retired

check_retired_seen :
    (seen : List Bytes) (k : Bytes) (ks : List Key)
    → contains seen k ≡ true
    → check_retired seen ks ≡ ok tt
    → contains (map (λ j. j.id) ks) k ≡ false
unfolding check_retired
check_retired_seen seen k [] c h = refl
check_retired_seen seen k (x ∷ ks) c h =
    ground (arith, check_retired_seen (x.id ∷ seen) k ks, str_eq-eq x.id k)

check_retired-Distinct :
    (seen : List Bytes) (ks : List Key)
    → check_retired seen ks ≡ ok tt
    → Distinct (map (λ j. j.id) ks)
unfolding check_retired
check_retired-Distinct seen [] h = tt
check_retired-Distinct seen (x ∷ ks) h = ground (
  arith,
  check_retired_seen (x.id ∷ seen) x.id ks,
  str_eq_refl x.id,
  check_retired-Distinct (x.id ∷ seen) ks,
)

ring_of_checked :
    (active : Key) (retired : List Key) {r : KeyRing}
    → new_key_ring active retired ≡ ok r
    → (check_retired (active.id ∷ []) retired ≡ ok tt)
      × (r ≡ record { active = active; retired = retired })
unfolding new_key_ring
ring_of_checked active retired h = ground arith

new_key_ring-Distinct :
    (active : Key) (retired : List Key) {r : KeyRing}
    → new_key_ring active retired ≡ ok r
    → (r ≡ record { active = active; retired = retired }) × Distinct (ids r)
unfolding ids contains
new_key_ring-Distinct active retired {r} h =
    let (checked, same) = ring_of_checked active retired {r = r} h in
    let first : contains (active.id ∷ []) active.id ≡ true = rw (str_eq_refl active.id) refl in
    (
      same,
      subst (λ q. Distinct (ids q)) (sym same)
          (
            check_retired_seen (active.id ∷ []) active.id retired first checked,
            check_retired-Distinct (active.id ∷ []) retired checked,
          ),
    )

contains-In : (k : Key) (ks : List Key) → In k ks → contains (map (λ j. j.id) ks) k.id ≡ true
unfolding contains
contains-In k [] m = absurd m
contains-In k (x ∷ ks) (inl e) = rw (← e, str_eq_refl k.id) refl
contains-In k (x ∷ ks) (inr m) = ground (arith, contains-In k ks m)

find_retired_In :
    (k : Key) (ks : List Key)
    → Distinct (map (λ j. j.id) ks)
    → In k ks
    → find_retired k.id ks ≡ some k
unfolding find_retired
find_retired_In k [] d m = absurd m
find_retired_In k (x ∷ ks) d (inl e) = rw (← e, str_eq_refl k.id) refl
find_retired_In k (x ∷ ks) d (inr m) =
    ground (arith, str_eq-eq k.id x.id, contains-In k ks m, find_retired_In k ks d.1 m)

find_retired_sound :
    (id : Bytes) (ks : List Key) {k : Key} → find_retired id ks ≡ some k → In k ks × (k.id ≡ id)
unfolding find_retired
find_retired_sound id [] h = cc
find_retired_sound id (x ∷ ks) {k} h =
    ground (arith, str_eq-eq id x.id, find_retired_sound id ks {k = k})

find-In : (r : KeyRing) (k : Key) → Distinct (ids r) → In k (keys r) → find r k.id ≡ some k
unfolding find ids
find-In r k d (inl e) = rw (← e, str_eq_refl k.id) refl
find-In r k d (inr m) = ground (
  arith,
  str_eq-eq k.id r.active.id,
  contains-In k r.retired m,
  find_retired_In k r.retired d.1 m,
)

find_sound : (r : KeyRing) (id : Bytes) {k : Key} → find r id ≡ some k → In k (keys r) × (k.id ≡ id)
unfolding find
find_sound r id {k} h =
    ground (arith, str_eq-eq id r.active.id, find_retired_sound id r.retired {k = k})

-- A ring that `NewKeyRing` returns holds its keys under distinct identifiers, and looking up an
-- identifier finds a key exactly when that key is one of those given and bears the identifier. So
-- which key verifies a token does not depend on the order of the retired keys.
pub find_iff :
    (active : Key) (retired : List Key) {r : KeyRing} (id : Bytes) (k : Key)
    → new_key_ring active retired ≡ ok r
    → Distinct (ids r) × ((find r id ≡ some k) ↔ (In k (active ∷ retired) × (k.id ≡ id)))
find_iff active retired {r} id k h =
    let (same, distinct) = new_key_ring-Distinct active retired {r = r} h in
    (
      distinct,
      (
        λ found. subst (λ q. In k (keys q) × (k.id ≡ id)) same (find_sound r id {k = k} found),
        λ (m, e).
            subst (λ x. find r x ≡ some k) e
              (find-In r k distinct (subst (λ q. In k (keys q)) (sym same) m)),
      ),
    )
