-- ===== src/Authz/Sets.antt =====
-- The sets of runtime/authz/permission.go behave as finite sets of well-formed permissions.
use nise_and_go.Common.{◌≡◌, sym, ◌∙◌, true, ◌||◌, List, [], ◌∷◌, arith, length}
use nise_and_go.Common.Text.{str_eq, str_eq-eq}
use nise_and_go.Common.Result.{ok}
use nise_and_go.Common.Keys.{
  contains, Distinct, sort-eq, sort-IsSorted, IsSorted, contains-sort, length-sort,
}
use nise_and_go.Authz.Permission.{
  Set, Permission, put, put_valid, new_set, valid, has, all, len, copy, union,
}

-- What every set has that the package builds: its keys differ and are well formed.
pub record IsWf (s : Set) : Type 0 where
  pub distinct : Distinct s.held
  pub valid_keys : (p : Permission) → contains s.held p ≡ true → valid p ≡ true

pub contains-put :
    (p k : Permission) (held : List Permission)
    → contains (put p held) k ≡ (str_eq p k || contains held k)
unfolding put contains
contains-put p k held = ground (arith, str_eq-eq p k)

put-Distinct : (p : Permission) (held : List Permission) → Distinct held → Distinct (put p held)
unfolding put
put-Distinct p held d = ground (arith, d)

put_valid-contains :
    (held ps : List Permission) (k : Permission) {out : List Permission}
    → put_valid held ps ≡ ok out
    → contains out k ≡ (contains held k || contains ps k)
unfolding put_valid contains
put_valid-contains held [] k h = ground (arith, h)
put_valid-contains held (p ∷ ps) k {out} h =
    ground (arith, put_valid-contains (put p held) ps k {out = out}, contains-put p k held)

put_valid-Distinct :
    (held ps : List Permission) {out : List Permission}
    → put_valid held ps ≡ ok out
    → Distinct held
    → Distinct out
unfolding put_valid
put_valid-Distinct held [] h d = ground (arith, h)
put_valid-Distinct held (p ∷ ps) {out} h d =
    ground (arith, put_valid-Distinct (put p held) ps {out = out}, put-Distinct p held d)

put_valid-valid :
    (held ps : List Permission) (k : Permission) {out : List Permission}
    → put_valid held ps ≡ ok out
    → contains ps k ≡ true
    → valid k ≡ true
unfolding put_valid contains
put_valid-valid held [] k h c = cc
put_valid-valid held (p ∷ ps) k {out} h c =
    ground (arith, put_valid-valid (put p held) ps k {out = out}, str_eq-eq p k)

new_set-held : (ps : List Permission) {s : Set} → new_set ps ≡ ok s → put_valid [] ps ≡ ok s.held
unfolding new_set
new_set-held ps h = ground (arith, h)

-- A set that `NewSet` accepts is well formed, and holds exactly the permissions that it was given.
-- Its length and its sorted listing therefore depend neither on their order nor on repetitions.
pub new_set_lem :
    (ps : List Permission) {s : Set}
    → new_set ps ≡ ok s
    → IsWf s × ((p : Permission) → has s p ≡ contains ps p)
unfolding has contains
new_set_lem ps {s} h =
    let made = new_set-held ps {s = s} h in
    let member = λ (p : Permission). put_valid-contains [] ps p {out = s.held} made in
    let good = λ (p : Permission). put_valid-valid [] ps p {out = s.held} made in
    (
      record {
        distinct = put_valid-Distinct [] ps {out = s.held} made tt;
        valid_keys = λ p c. good p (ground (arith, member p, c));
      },
      λ p. ground (arith, member p, good p),
    )

-- A well-formed set answers by its keys.
pub has-contains : (s : Set) (p : Permission) → IsWf s → has s p ≡ contains s.held p
unfolding has
has-contains s p w = ground (arith, w.valid_keys p)

copy-contains :
    (held ps : List Permission) (k : Permission)
    → contains (copy held ps) k ≡ (contains held k || contains ps k)
unfolding copy contains
copy-contains held [] k = ground arith
copy-contains held (p ∷ ps) k =
    ground (arith, copy-contains (put p held) ps k, contains-put p k held)

copy-Distinct : (held ps : List Permission) → Distinct held → Distinct (copy held ps)
unfolding copy
copy-Distinct held [] d = d
copy-Distinct held (p ∷ ps) d = copy-Distinct (put p held) ps (put-Distinct p held d)

pub union-contains :
    (s t : Set) (k : Permission)
    → contains (union s t).held k ≡ (contains s.held k || contains t.held k)
unfolding union contains
union-contains s t k =
    ground (arith, copy-contains (copy [] s.held) t.held k, copy-contains [] s.held k)

pub union-IsWf : (s t : Set) → IsWf s → IsWf t → IsWf (union s t)
unfolding union
union-IsWf s t v w = record {
  distinct = copy-Distinct (copy [] s.held) t.held (copy-Distinct [] s.held tt);
  valid_keys = λ p c. ground (arith, union-contains s t p, v.valid_keys p, w.valid_keys p, c);
}

-- A union of well-formed sets is well formed and holds what either holds.
pub has-union :
    (s t : Set) (p : Permission)
    → IsWf s
    → IsWf t
    → IsWf (union s t) × (has (union s t) p ≡ (has s p || has t p))
has-union s t p v w =
    let u = union-IsWf s t v w in
    (
      u,
      ground (
        arith,
        has-contains (union s t) p u,
        has-contains s p v,
        has-contains t p w,
        union-contains s t p,
      ),
    )

-- `All` is a canonical form of a well-formed set: it lists the permissions held, strictly
-- ascending, as many as `Len` says, and two sets that answer `Has` alike have the same listing.
pub all_canonical :
    (s t : Set)
    → IsWf s
    → IsWf t
    → IsSorted (all s)
      × (length (all s) ≡ len s)
      × ((p : Permission) → contains (all s) p ≡ has s p)
      × (((p : Permission) → has s p ≡ has t p) → all s ≡ all t)
unfolding all len
all_canonical s t v w = (
  sort-IsSorted s.held v.distinct,
  length-sort s.held,
  λ p. contains-sort s.held p ∙ sym (has-contains s p v),
  λ same.
      sort-eq s.held t.held v.distinct w.distinct
        (λ p. sym (has-contains s p v) ∙ same p ∙ has-contains t p w),
)
