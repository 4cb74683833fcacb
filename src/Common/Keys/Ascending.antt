-- ===== src/Common/Keys/Ascending.antt =====
-- Sorting a list with repetitions, and `slices.Compact`, which drops them from a sorted list.
use nise_and_go.Common.{
  ◌≡◌, refl, inl, inr, true, false, List, [], ◌∷◌, arith, if◌then◌else◌, Bool-cases,
}
use nise_and_go.Common.Text.{Bytes, str_eq, str_eq-eq, str_eq_refl, str_lt, All}
use nise_and_go.Common.Keys.{
  contains, insert, sort, IsSorted, str_lt_trans, str_lt-total, str_lt_irrefl,
}

-- `slices.Compact`
unfoldable pub compact : List Bytes → List Bytes
compact [] = []
compact (x ∷ []) = x ∷ []
compact (x ∷ y ∷ ys) = let rest = compact (y ∷ ys) in if str_eq x y then rest else x ∷ rest

pub compact-contains : (xs : List Bytes) (k : Bytes) → contains (compact xs) k ≡ contains xs k
unfolding compact contains
compact-contains [] k = refl
compact-contains (x ∷ []) k = refl
compact-contains (x ∷ y ∷ ys) k = ground (arith, compact-contains (y ∷ ys) k, str_eq-eq x y)

-- Nothing later is smaller.
abbrev Least : Bytes → List Bytes → Type 0
Least x = All (λ y. str_lt y x ≡ false)

abbrev IsAscending : List Bytes → Type 0
IsAscending [] = Unit {0}
IsAscending (x ∷ xs) = Least x xs × IsAscending xs

Least-insert :
    (b x : Bytes) (l : List Bytes) → str_lt x b ≡ false → Least b l → Least b (insert x l)
unfolding insert
Least-insert b x [] h a = (h, tt)
Least-insert b x (y ∷ l) h a = ground (arith, Least-insert b x l h)

Least-trans : (b x : Bytes) (l : List Bytes) → str_lt x b ≡ false → Least x l → Least b l
Least-trans b x [] h a = tt
Least-trans b x (y ∷ l) h a =
    (ground (arith, str_lt_trans y b x, str_lt-total b x, a.0, h), Least-trans b x l h a.1)

insert-IsAscending : (x : Bytes) (l : List Bytes) → IsAscending l → IsAscending (insert x l)
unfolding insert
insert-IsAscending x [] s = (tt, tt)
insert-IsAscending x (y ∷ l) s = elim (Bool-cases (str_lt y x)) [
  | inl e ↦ rw e (
    Least-insert y x l (ground (arith, str_lt_trans x y x, str_lt_irrefl x)) s.0,
    insert-IsAscending x l s.1,
  )
  | inr e ↦ rw e ((e, Least-trans x y l e s.0), s)
]

sort-IsAscending : (l : List Bytes) → IsAscending (sort l)
unfolding sort
sort-IsAscending [] = tt
sort-IsAscending (x ∷ l) = insert-IsAscending x (sort l) (sort-IsAscending l)

-- Above a smaller string.
abbrev Above : Bytes → List Bytes → Type 0
Above x = All (λ y. str_lt x y ≡ true)

Above-compact :
    (b y : Bytes) (l : List Bytes)
    → str_lt b y ≡ true
    → IsAscending (y ∷ l)
    → Above b (compact (y ∷ l))
unfolding compact
Above-compact b y [] h s = (h, tt)
Above-compact b y (z ∷ l) h s =
    let next : str_lt b z ≡ true = ground (arith, str_lt_trans b y z, str_lt-total y z, s.0.0, h) in
    elim (Bool-cases (str_eq y z)) [
      | inl e ↦ rw e (Above-compact b z l next s.1)
      | inr e ↦ rw e (h, Above-compact b z l next s.1)
    ]

compact-IsSorted : (l : List Bytes) → IsAscending l → IsSorted (compact l)
unfolding compact
compact-IsSorted [] s = tt
compact-IsSorted (x ∷ []) s = (tt, tt)
compact-IsSorted (x ∷ y ∷ l) s = elim (Bool-cases (str_eq x y)) [
  | inl e ↦ rw e (compact-IsSorted (y ∷ l) s.1)
  | inr e ↦
      let less : str_lt x y ≡ true = ground (arith, str_lt-total x y, str_eq_refl x, s.0.0, e) in
      rw e (Above-compact x y l less s.1, compact-IsSorted (y ∷ l) s.1)
]

-- Sorting and compacting any list leaves a strictly ascending one.
pub compact-sort-IsSorted : (l : List Bytes) → IsSorted (compact (sort l))
compact-sort-IsSorted l = compact-IsSorted (sort l) (sort-IsAscending l)
