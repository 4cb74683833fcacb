-- ===== src/Lifecycle/Run.antt =====
-- Every run of a group ends, and when it has ended every component has stopped or was asked to.
use nise_and_go.Common.{
  ℕ, suc, ◌+◌, ◌*◌, ◌≤◌, ◌<◌, ◌≡◌, ◌≢◌, refl, ap, ◌∙◌, ◌⊎◌, inl, inr, Bool, true, false, List, [],
  ◌∷◌, ◌++◌, Option, arith, if◌then◌else◌, length, length-append, Bool-cases,
}
use nise_and_go.Common.Text.{Bytes, str_eq}
use nise_and_go.Common.Result.{ok}
use nise_and_go.Lifecycle.{
  Mode, new_group, first_error, Outcome, GroupState, begin_run, others, receive, Moves, stops,
  answers, receives, Steps, done, more,
}
use nise_and_go.Lifecycle.Times.{
  times, sent_by, times-append, sent_by-append, times-others, new_group-times,
}

length-others : (skip : Bytes) (l : List Bytes) → length (others skip l) ≤ length l
unfolding others
length-others skip [] = omega arith
length-others skip (x ∷ l) = ground (arith, length-others skip l)

-- Components that still run, outcomes in the channel, and outcomes received make up the group.
abbrev Counted : GroupState → Type 0
Counted g = g.remaining ≡ length g.running + length g.results

-- How many steps are left at most.
abbrev steps_left : GroupState → ℕ
steps_left g =
    2 * length g.running
    + length g.results
    + length g.pending
    + (if g.stopped_others then 0 else length g.items)

shorter :
    {A : Type 0} (l before after : List A) (x : A)
    → l ≡ before ++ x ∷ after
    → length l ≡ length (before ++ after) + 1
shorter {A = A} l before after x e = omega (
  arith,
  ap (λ (m : List A). length m) e,
  length-append before (x ∷ after),
  length-append before after,
)

move-Counted :
    {g h : GroupState} → Moves g h → Counted g → Counted h × (steps_left h < steps_left g)
unfolding receive
move-Counted (stops g before after name e r) c =
    let n = shorter g.running before after name r in
    let sent = length-append g.results ((name, e) ∷ []) in
    (omega (arith, c, n, sent), omega (arith, n, sent))
move-Counted (answers g before after name r) c =
    let n = shorter g.pending before after name r in (c, omega (arith, n))
move-Counted (receives g o rest p r) c =
    let n = ap (λ (l : List Outcome). length l) r in
    let q = ap (λ (l : List Bytes). length l) p in
    let fewer = length-others o.0 g.items in (omega (arith, c, n), ground (arith, n, q, fewer))

abbrev pub count : {g h : GroupState} → Steps g h → ℕ
count done = 0
count (more m s) = suc (count s)

begin_run-Counted : (items : List Bytes) → Counted (begin_run items)
unfolding begin_run
begin_run-Counted items = omega arith

steps-Counted :
    {g h : GroupState} (s : Steps g h)
    → Counted g
    → Counted h × (count s + steps_left h ≤ steps_left g)
steps-Counted done c = (c, omega arith)
steps-Counted (more m s) c =
    let (d, less) = move-Counted m c in
    let (e, few) = steps-Counted s d in (e, omega (arith, less, few))

-- The outcomes that were received, in their order.
abbrev pub heard : {g h : GroupState} → Steps g h → List Outcome
heard done = []
heard (more (stops g before after name e r) s) = heard s
heard (more (answers g before after name r) s) = heard s
heard (more (receives g o rest p r) s) = o ∷ heard s

-- The first error of a list of outcomes, after one that is known.
abbrev pub first_bad : Option (Bytes × ℕ) → List Outcome → Option (Bytes × ℕ)
first_bad known [] = known
first_bad known (o ∷ os) = first_bad (first_error known o) os

-- How often a name is that of a component that runs or of an outcome in the channel.
abbrev at_work : Bytes → GroupState → ℕ
at_work x g = times x g.running + times x (sent_by g.results)

-- Nobody's outcome is lost, sent twice, or sent under another name.
steps-times :
    {g h : GroupState} (s : Steps g h) (x : Bytes)
    → at_work x h + times x (sent_by (heard s)) ≡ at_work x g
unfolding receive
steps-times done x = omega arith
steps-times (more (stops g before after name e r) s) x = omega (
  arith,
  steps-times s x,
  ap (times x) r,
  times-append x before (name ∷ after),
  times-append x before after,
  ap (times x) (sent_by-append g.results ((name, e) ∷ [])),
  times-append x (sent_by g.results) (name ∷ []),
)
steps-times (more (answers g before after name r) s) x = steps-times s x
steps-times (more (receives g o rest p r) s) x =
    omega (arith, steps-times s x, ap (λ (l : List Outcome). times x (sent_by l)) r)

-- After the first outcome nobody is asked again.
asked-kept : {g h : GroupState} (s : Steps g h) → g.stopped_others ≡ true → h.asked ≡ g.asked
unfolding receive
asked-kept done t = refl
asked-kept (more (stops g before after name e r) s) t = asked-kept s t
asked-kept (more (answers g before after name r) s) t = asked-kept s t
asked-kept (more (receives g o rest p r) s) t = asked-kept s refl ∙ rw t refl

-- At the first outcome all others are asked.
asked-first :
    {g h : GroupState} (s : Steps g h) (o : Outcome) (os : List Outcome)
    → g.stopped_others ≡ false
    → g.asked ≡ []
    → heard s ≡ o ∷ os
    → h.asked ≡ others o.0 g.items
unfolding receive
asked-first done o os f a e = cc
asked-first (more (stops g before after name e r) s) o os f a q = asked-first s o os f a q
asked-first (more (answers g before after name r) s) o os f a q = asked-first s o os f a q
asked-first (more (receives g x rest p r) s) o os f a q =
    let same : x ≡ o = cc q in
    asked-kept s refl ∙ rw (f, a) (ap (λ (y : Outcome). others y.0 g.items) same)

empty_or : {A : Type 0} (l : List A) → (l ≡ []) ⊎ (l ≢ [])
empty_or [] = inl refl
empty_or (x ∷ l) = inr λ e. cc

begun-times :
    (items : List Bytes) {h : GroupState} (s : Steps (begin_run items) h) (x : Bytes)
    → at_work x h + times x (sent_by (heard s)) ≡ times x items
unfolding begin_run
begun-times items s x = omega (arith, steps-times s x)

begun-asked :
    (items : List Bytes) {h : GroupState} (s : Steps (begin_run items) h) (o : Outcome)
    (os : List Outcome)
    → heard s ≡ o ∷ os
    → h.asked ≡ others o.0 items
unfolding begin_run
begun-asked items s o os e = asked-first s o os refl refl e

-- Of a group without duplicates, every component that runs after the first outcome was asked to stop.
running-asked :
    (items : List Bytes) {h : GroupState} (s : Steps (begin_run items) h) (o : Outcome)
    (os : List Outcome) (x : Bytes)
    → times x items ≤ 1
    → heard s ≡ o ∷ os
    → 0 < times x h.running
    → 0 < times x h.asked
running-asked items {h} s o os x once e running =
    let all = begun-times items s x in
    let first = ap (λ (l : List Outcome). times x (sent_by l)) e in
    let asked = ap (times x) (begun-asked items s o os e) ∙ times-others x o.0 items in
    elim (Bool-cases (str_eq o.0 x)) [
      | inl y ↦ absurd (ground (arith, all, first, y, once, running))
      | inr n ↦ ground (arith, all, first, n, asked, running)
    ]

-- What a run that has not ended waits for: a Shutdown that is under way, or an outcome that is there, or
-- components that run, where nobody's outcome was received yet or each of them was asked to stop.
abbrev pub Waits : GroupState → List Outcome → Type 0
Waits h received =
    (h.pending ≢ [])
    ⊎ (h.results ≢ [])
    ⊎ ((h.running ≢ [])
        × ((received ≡ []) ⊎ ((x : Bytes) → 0 < times x h.running → 0 < times x h.asked)))

asked_or_none :
    (items : List Bytes) {h : GroupState} (s : Steps (begin_run items) h) (received : List Outcome)
    → heard s ≡ received
    → ((x : Bytes) → times x items ≤ 1)
    → (heard s ≡ []) ⊎ ((x : Bytes) → 0 < times x h.running → 0 < times x h.asked)
asked_or_none items s [] e once = inl e
asked_or_none items s (o ∷ os) e once = inr λ x r. running-asked items s o os x (once x) e r

waiting :
    (items : List Bytes) {h : GroupState} (s : Steps (begin_run items) h)
    → Counted h
    → ((x : Bytes) → times x items ≤ 1)
    → ((h.remaining ≡ 0) × (h.pending ≡ [])) ⊎ Waits h (heard s)
waiting items {h} s c once = elim (empty_or h.pending) [
  | inr n ↦ inr (inl n)
  | inl p ↦ elim (empty_or h.results) [
    | inr n ↦ inr (inr (inl n))
    | inl q ↦ elim (empty_or h.running) [
      | inl r ↦ inl (
        omega
            (arith, c, ap (λ (l : List Outcome). length l) q, ap (λ (l : List Bytes). length l) r),
        p,
      )
      | inr n ↦ inr (inr (inr (n, asked_or_none items s (heard s) refl once)))
    ]
  ]
]

-- A run of a group makes at most three steps for every component. As long as it has not ended, it waits for
-- a Shutdown to return, or has an outcome to receive, or some component runs, and then none has stopped
-- so far or every one that runs was asked to stop.
pub run_bounded :
    (mode : Mode) (web worker : Bool) {items : List Bytes} {h : GroupState}
    (s : Steps (begin_run items) h)
    → new_group mode web worker ≡ ok items
    → (count s ≤ 3 * length items) × (((h.remaining ≡ 0) × (h.pending ≡ [])) ⊎ Waits h (heard s))
unfolding begin_run
run_bounded mode web worker {items} {h} s g =
    let (c, few) = steps-Counted s (begin_run-Counted items) in
    (omega (arith, few), waiting items s c λ x. new_group-times mode web worker x g)
