-- ===== src/Lifecycle/Times.antt =====
-- How often a name stands in a list.
use nise_and_go.Common.{
  ◌⊎◌, ℕ, ◌+◌, ◌≤◌, ◌≡◌, refl, sym, ap, ◌∙◌, inl, inr, Bool, List, [], ◌∷◌, ◌++◌, arith,
  if◌then◌else◌, Bool-cases,
}
use nise_and_go.Common.Text.{Bytes, codes, str_eq, str_eq-eq, str_eq_refl}
use nise_and_go.Common.Result.{ok}
use nise_and_go.Lifecycle.{Outcome, Mode, others, new_group}

abbrev pub times : Bytes → List Bytes → ℕ
times x [] = 0
times x (y ∷ ys) = (if str_eq y x then 1 else 0) + times x ys

abbrev pub sent_by : List Outcome → List Bytes
sent_by [] = []
sent_by (o ∷ os) = o.0 ∷ sent_by os

pub times-append : (x : Bytes) (l m : List Bytes) → times x (l ++ m) ≡ times x l + times x m
times-append x [] m = omega arith
times-append x (y ∷ l) m = ground (arith, times-append x l m)

pub sent_by-append : (l m : List Outcome) → sent_by (l ++ m) ≡ sent_by l ++ sent_by m
sent_by-append [] m = refl
sent_by-append (o ∷ l) m = ap (◌∷◌ o.0) (sent_by-append l m)

-- `shutdownExcept` goes over every component but the one that it skips.
pub times-others :
    (x skip : Bytes) (l : List Bytes)
    → times x (others skip l) ≡ (if str_eq skip x then 0 else times x l)
unfolding others
times-others x skip [] = ground arith
times-others x skip (y ∷ l) = elim (Bool-cases (str_eq y skip)) [
  | inl e ↦
      let same : y ≡ skip = str_eq-eq y skip e in
      ground (arith, e, ap (λ z. str_eq z x) same, times-others x skip l)
  | inr e ↦ elim (Bool-cases (str_eq skip x)) [
    | inr n ↦ ground (arith, e, n, times-others x skip l)
    | inl n ↦ elim (Bool-cases (str_eq y x)) [
      | inr m ↦ ground (arith, e, n, m, times-others x skip l)
      | inl m ↦
          let same : y ≡ skip = str_eq-eq y x m ∙ sym (str_eq-eq skip x n) in
          absurd (ground (arith, e, ap (λ z. str_eq z skip) same, str_eq_refl skip))
    ]
  ]
]

abbrev web_name : Bytes
web_name = codes "web"

abbrev worker_name : Bytes
worker_name = codes "worker"

pub new_group-names :
    (mode : Mode) (web worker : Bool) {items : List Bytes}
    → new_group mode web worker ≡ ok items
    → (items ≡ web_name ∷ []) ⊎ (items ≡ worker_name ∷ []) ⊎ (items ≡ web_name ∷ worker_name ∷ [])
unfolding new_group
new_group-names mode web worker {items} h = ground (arith, h)

both_once : (x : Bytes) → times x (web_name ∷ worker_name ∷ []) ≤ 1
both_once x = elim (Bool-cases (str_eq web_name x)) [
  | inr n ↦ rw n (ground arith)
  | inl e ↦ elim (Bool-cases (str_eq worker_name x)) [
    | inr n ↦ rw (e, n) (omega arith)
    | inl f ↦ absurd (cc (str_eq-eq web_name x e, str_eq-eq worker_name x f))
  ]
]

-- A group names no component twice.
pub new_group-times :
    (mode : Mode) (web worker : Bool) {items : List Bytes} (x : Bytes)
    → new_group mode web worker ≡ ok items
    → times x items ≤ 1
new_group-times mode web worker {items} x h = elim (new_group-names mode web worker h) [
  | inl e ↦ rw e (ground arith)
  | inr (inl e) ↦ rw e (ground arith)
  | inr (inr e) ↦ rw e (both_once x)
]
