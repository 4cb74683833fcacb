-- ===== src/Common/Keys.antt =====
-- Sets of strings, as the keys of a Go map: membership, distinctness, and `slices.Sort`. A set has
-- one sorted listing.
pub mod Ascending
use nise_and_go.Common.{
  ◌+◌, subst, length, ℕ, ◌≡◌, refl, sym, ap, ◌∙◌, ◌⊎◌, inl, inr, Bool, true, false, ◌&&◌, ◌||◌,
  List, [], ◌∷◌, arith, ltb, ◌==◌, if◌then◌else◌, Bool-cases,
}
use mathlib.Core.Bool.{false≢true}
use nise_and_go.Common.Text.{Bytes, str_eq, str_eq-eq, str_eq_refl, str_lt, All, codes}

unfoldable pub contains : List Bytes → Bytes → Bool
contains [] x = false
contains (y ∷ ys) x = str_eq y x || contains ys x

-- No string occurs twice.
abbrev pub Distinct : List Bytes → Type 0
Distinct [] = Unit {0}
Distinct (x ∷ xs) = (contains xs x ≡ false) × Distinct xs

insert : Bytes → List Bytes → List Bytes
insert x [] = x ∷ []
insert x (y ∷ ys) = if str_lt y x then y ∷ insert x ys else x ∷ y ∷ ys

unfoldable pub sort : List Bytes → List Bytes
unfolding insert str_lt
sort [] = []
sort (x ∷ xs) = insert x (sort xs)

pub str_lt_irrefl : (s : Bytes) → str_lt s s ≡ false
unfolding str_lt
str_lt_irrefl [] = refl
str_lt_irrefl (x ∷ s) = ground (arith, str_lt_irrefl s)

pub str_lt_trans : (r s t : Bytes) → str_lt r s ≡ true → str_lt s t ≡ true → str_lt r t ≡ true
unfolding str_lt
str_lt_trans [] [] t h k = cc
str_lt_trans [] (y ∷ s) [] h k = cc
str_lt_trans [] (y ∷ s) (z ∷ t) h k = refl
str_lt_trans (x ∷ r) [] t h k = cc
str_lt_trans (x ∷ r) (y ∷ s) [] h k = cc
str_lt_trans (x ∷ r) (y ∷ s) (z ∷ t) h k = ground (arith, str_lt_trans r s t)

pub str_lt-total : (s t : Bytes) → str_lt s t ≡ false → str_lt t s ≡ false → s ≡ t
unfolding str_lt
str_lt-total [] [] h k = refl
str_lt-total [] (y ∷ t) h k = cc
str_lt-total (x ∷ s) [] h k = cc
str_lt-total (x ∷ s) (y ∷ t) h k = ground (arith, str_lt-total s t)

-- Strictly ascending.
abbrev pub IsSorted : List Bytes → Type 0
IsSorted [] = Unit {0}
IsSorted (x ∷ xs) = All (λ y. str_lt x y ≡ true) xs × IsSorted xs

contains-insert :
    (x k : Bytes) (l : List Bytes) → contains (insert x l) k ≡ (str_eq x k || contains l k)
unfolding insert contains
contains-insert x k [] = refl
contains-insert x k (y ∷ l) = ground (arith, contains-insert x k l)

pub contains-sort : (l : List Bytes) (k : Bytes) → contains (sort l) k ≡ contains l k
unfolding sort contains
contains-sort [] k = refl
contains-sort (x ∷ l) k = rw (contains-insert x k (sort l), contains-sort l k) refl

below_insert :
    (b x : Bytes) (l : List Bytes)
    → str_lt b x ≡ true
    → All (λ y. str_lt b y ≡ true) l
    → All (λ y. str_lt b y ≡ true) (insert x l)
unfolding insert
below_insert b x [] h a = (h, tt)
below_insert b x (y ∷ l) h a = ground (arith, below_insert b x l h)

below_trans :
    (b x : Bytes) (l : List Bytes)
    → str_lt b x ≡ true
    → All (λ y. str_lt x y ≡ true) l
    → All (λ y. str_lt b y ≡ true) l
below_trans b x [] h a = tt
below_trans b x (y ∷ l) h a = (str_lt_trans b x y h a.0, below_trans b x l h a.1)

insert-IsSorted :
    (x : Bytes) (l : List Bytes) → contains l x ≡ false → IsSorted l → IsSorted (insert x l)
unfolding insert contains
insert-IsSorted x [] c s = (tt, tt)
insert-IsSorted x (y ∷ l) c s = elim (Bool-cases (str_lt y x)) [
  | inl e ↦ rw e (below_insert y x l e s.0, insert-IsSorted x l (ground arith) s.1)
  | inr e ↦
      let less : str_lt x y ≡ true = ground (arith, str_lt-total x y, str_eq_refl x) in
      rw e ((less, below_trans x y l less s.0), s)
]

pub sort-IsSorted : (l : List Bytes) → Distinct l → IsSorted (sort l)
unfolding sort
sort-IsSorted [] d = tt
sort-IsSorted (x ∷ l) d = insert-IsSorted x (sort l) (contains-sort l x ∙ d.0) (sort-IsSorted l d.1)

below_absent : (x : Bytes) (l : List Bytes) → All (λ y. str_lt x y ≡ true) l → contains l x ≡ false
unfolding contains
below_absent x [] a = refl
below_absent x (y ∷ l) a = ground (arith, below_absent x l a.1, str_eq-eq y x, str_lt_irrefl x)

below_least :
    (x k : Bytes) (l : List Bytes)
    → All (λ y. str_lt x y ≡ true) l
    → contains l k ≡ true
    → str_lt x k ≡ true
unfolding contains
below_least x k [] a c = cc
below_least x k (y ∷ l) a c = ground (arith, below_least x k l a.1, str_eq-eq y k)

heads :
    (x y : Bytes) (xs ys : List Bytes)
    → IsSorted (x ∷ xs)
    → IsSorted (y ∷ ys)
    → ((k : Bytes) → contains (x ∷ xs) k ≡ contains (y ∷ ys) k)
    → x ≡ y
unfolding contains
heads x y xs ys s t h = ground (
  arith,
  str_eq_refl x,
  str_eq_refl y,
  str_eq-eq x y,
  str_eq-eq y x,
  h x,
  h y,
  below_least y x ys t.0,
  below_least x y xs s.0,
  str_lt_trans x y x,
  str_lt_irrefl x,
)

tails :
    (x y : Bytes) (xs ys : List Bytes) (k : Bytes)
    → x ≡ y
    → IsSorted (x ∷ xs)
    → IsSorted (y ∷ ys)
    → contains (x ∷ xs) k ≡ contains (y ∷ ys) k
    → contains xs k ≡ contains ys k
unfolding contains
tails x y xs ys k e s t h =
    ground (arith, below_absent x xs s.0, below_absent y ys t.0, str_eq-eq x k, str_eq-eq y k)

-- Two sorted listings of the same set are one list.
pub IsSorted-eq :
    (xs ys : List Bytes)
    → IsSorted xs
    → IsSorted ys
    → ((k : Bytes) → contains xs k ≡ contains ys k)
    → xs ≡ ys
unfolding contains
IsSorted-eq [] [] s t h = refl
IsSorted-eq [] (y ∷ ys) s t h = ground (arith, h y, str_eq_refl y)
IsSorted-eq (x ∷ xs) [] s t h = ground (arith, h x, str_eq_refl x)
IsSorted-eq (x ∷ xs) (y ∷ ys) s t h =
    let e = heads x y xs ys s t h in
    cc (e, IsSorted-eq xs ys s.1 t.1 (λ k. tails x y xs ys k e s t (h k)))

-- The order in which a map's keys are met does not show after sorting.
pub sort-eq :
    (xs ys : List Bytes)
    → Distinct xs
    → Distinct ys
    → ((k : Bytes) → contains xs k ≡ contains ys k)
    → sort xs ≡ sort ys
sort-eq xs ys d e h =
    IsSorted-eq (sort xs) (sort ys) (sort-IsSorted xs d) (sort-IsSorted ys e)
      (λ k. contains-sort xs k ∙ h k ∙ sym (contains-sort ys k))

length-insert : (x : Bytes) (l : List Bytes) → length (insert x l) ≡ length l + 1
unfolding insert
length-insert x [] = omega arith
length-insert x (y ∷ l) = ground (arith, length-insert x l)

pub length-sort : (l : List Bytes) → length (sort l) ≡ length l
unfolding sort
length-sort [] = refl
length-sort (x ∷ l) = omega (arith, length-insert x (sort l), length-sort l)

-- What holds of every member holds of one that is found.
pub All-contains {ℓ} :
    (P : Bytes → Type ℓ) (l : List Bytes) (k : Bytes) → All P l → contains l k ≡ true → P k
unfolding contains
All-contains P [] k a c = absurd (false≢true c)
All-contains P (x ∷ l) k a c = elim (Bool-cases (str_eq x k)) [
  | inl e ↦ subst P (str_eq-eq x k e) a.0
  | inr e ↦ All-contains P l k a.1 (rw e at c)
]

pub All-of_contains {ℓ} :
    (P : Bytes → Type ℓ) (l : List Bytes) → ((k : Bytes) → contains l k ≡ true → P k) → All P l
unfolding contains
All-of_contains P [] h = tt
All-of_contains P (x ∷ l) h =
    (h x (rw (str_eq_refl x) refl), All-of_contains P l (λ k c. h k (ground (arith, c))))
