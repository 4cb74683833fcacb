-- ===== src/Password/Params/Search.antt =====
-- What `Recommend` finds.
use nise_and_go.Common.{
  subst, ℕ, zero, suc, ◌+◌, ◌≤◌, ◌≡◌, refl, sym, ap, ◌∙◌, ◌⊎◌, inl, inr, Bool, true, false, List,
  [], ◌∷◌, ◌++◌, Option, none, some, arith, ◌==◌, length, length-append,
}
use nise_and_go.Common.Int.{pos, ltb_ℤ}
use nise_and_go.Common.Clock.{Duration}
use nise_and_go.Common.Result.{ok, Result-cases}
use nise_and_go.Password.Params.{
  Params, new_params, benchmark, median, sample_times, recommend_loop, recommend, Measurement,
  Recommendation, max_iterations, min_iterations,
}

-- The set with `n` iterations.
abbrev pub with_iterations : ℕ → ℕ → ℕ → Params
with_iterations n memory parallelism = record {
  version = pos 1;
  memory_kib = memory;
  iterations = n;
  parallelism = parallelism;
}

module _ (time_of : Params → ℕ → Duration) where
  abbrev pub taken : Params → ℕ → Duration
  taken p samples = median (sample_times time_of p samples)

  new_params-with :
      (n memory parallelism : ℕ) (p : Params)
      → new_params (pos 1) memory n parallelism ≡ ok p
      → p ≡ with_iterations n memory parallelism
  unfolding new_params
  new_params-with n memory parallelism p h = ground (arith, h)

  benchmark-taken :
      (p : Params) (samples : ℕ) (m : Measurement)
      → benchmark time_of p samples ≡ ok m
      → m.duration ≡ taken p samples
  unfolding benchmark
  benchmark-taken p samples m h = ground (arith, h)

  -- The best set so far is the one just before `n`, and it is within the target.
  abbrev BestAt : ℕ → ℕ → ℕ → Duration → ℕ → Option (Params × Duration) → Type 0
  BestAt n memory parallelism target samples none = n ≡ min_iterations
  BestAt n memory parallelism target samples (some (p, d)) =
      (p.iterations + 1 ≡ n)
      × (p ≡ with_iterations p.iterations memory parallelism)
      × (d ≡ taken p samples)
      × (ltb_ℤ target d ≡ false)

  -- What the loop ends with.
  abbrev Found :
      ℕ → ℕ → Duration → ℕ → Option (Params × Duration) × Bool × List Measurement → Type 0
  Found memory parallelism target samples (none, c, seen) = Unit {0}
  Found memory parallelism target samples (some (p, d), c, seen) =
      (p ≡ with_iterations p.iterations memory parallelism)
      × (d ≡ taken p samples)
      × (ltb_ℤ target d ≡ false)
      × (((c ≡ true) × (p.iterations ≡ max_iterations))
          ⊎ (ltb_ℤ target (taken (with_iterations (p.iterations + 1) memory parallelism) samples)
              ≡ true))

  -- One round that goes well.
  loop-round :
      (left n memory parallelism : ℕ) (target : Duration) (samples : ℕ)
      (best : Option (Params × Duration)) (seen : List Measurement)
      (found : Option (Params × Duration) × Bool × List Measurement)
      → recommend_loop time_of (suc left) n memory parallelism target samples best seen ≡ ok found
      → (p : Params) × (m : Measurement) × (new_params (pos 1) memory n parallelism ≡ ok p)
        × (benchmark time_of p samples ≡ ok m)
        × (((ltb_ℤ target m.duration ≡ true) × (found ≡ (best, false, seen ++ m ∷ [])))
            ⊎ ((ltb_ℤ target m.duration ≡ false)
                × (n ≡ max_iterations)
                × (found ≡ (some (p, m.duration), true, seen ++ m ∷ [])))
            ⊎ ((ltb_ℤ target m.duration ≡ false)
                × ((n == max_iterations) ≡ false)
                × (recommend_loop time_of left
                      (n + 1)
                      memory
                      parallelism
                      target
                      samples
                      (some (p, m.duration))
                      (seen ++ m ∷ [])
                    ≡ ok found)))
  unfolding recommend_loop
  loop-round left n memory parallelism target samples best seen found h =
      elim (Result-cases (new_params (pos 1) memory n parallelism)) [
        | inr (e, k) ↦ ground (arith, h, k)
        | inl (p, k) ↦ elim (Result-cases (benchmark time_of p samples)) [
          | inr (e, j) ↦ ground (arith, h, k, j)
          | inl (m, j) ↦ (p, m, k, j, ground (arith, h, k, j))
        ]
      ]

  itself :
      (p : Params) (n memory parallelism : ℕ)
      → p ≡ with_iterations n memory parallelism
      → p ≡ with_iterations p.iterations memory parallelism
  itself p n memory parallelism e =
      e
      ∙ ap (λ (i : ℕ). with_iterations i memory parallelism)
          (sym (ap (λ (q : Params). q.iterations) e))

  -- The next set was too slow.
  stopped :
      (n memory parallelism : ℕ) (target : Duration) (samples : ℕ)
      (best : Option (Params × Duration)) (seen : List Measurement)
      → BestAt n memory parallelism target samples best
      → ltb_ℤ target (taken (with_iterations n memory parallelism) samples) ≡ true
      → Found memory parallelism target samples (best, false, seen)
  stopped n memory parallelism target samples none seen b slow = tt
  stopped n memory parallelism target samples (some (p, d)) seen (i, s, t, w) slow = (
    s,
    t,
    w,
    inr (
        subst
          (λ (k : ℕ). ltb_ℤ target (taken (with_iterations k memory parallelism) samples) ≡ true)
          (sym i) slow),
  )

  loop-Found :
      (left n memory parallelism : ℕ) (target : Duration) (samples : ℕ)
      (best : Option (Params × Duration)) (seen : List Measurement)
      (found : Option (Params × Duration) × Bool × List Measurement)
      → n + left ≡ max_iterations + 1
      → 1 ≤ left
      → BestAt n memory parallelism target samples best
      → recommend_loop time_of left n memory parallelism target samples best seen ≡ ok found
      → Found memory parallelism target samples found × (length found.2 ≤ length seen + left)
  unfolding recommend_loop
  loop-Found zero n memory parallelism target samples best seen found e l b h = absurd (omega arith)
  loop-Found (suc left) n memory parallelism target samples best seen found e l b h =
      let (p, m, k, j, ends) =
        loop-round left n memory parallelism target samples best seen found h in
      let set : p ≡ with_iterations n memory parallelism =
        new_params-with n memory parallelism p k in
      let time : m.duration ≡ taken p samples = benchmark-taken p samples m j in
      elim ends [
        | inl (slow, f) ↦
            subst
              (λ (x : Option (Params × Duration) × Bool × List Measurement).
                Found memory parallelism target samples x × (length x.2 ≤ length seen + suc left))
              (sym f)
              (
                stopped n memory parallelism target samples best (seen ++ m ∷ []) b
                    (cc (slow, time, set)),
                omega (arith, length-append seen (m ∷ [])),
              )
        | inr (inl (fast, last, f)) ↦
            subst
              (λ (x : Option (Params × Duration) × Bool × List Measurement).
                Found memory parallelism target samples x × (length x.2 ≤ length seen + suc left))
              (sym f)
              (
                (
                  itself p n memory parallelism set,
                  time,
                  fast,
                  inl (refl, ap (λ (q : Params). q.iterations) set ∙ last),
                ),
                omega (arith, length-append seen (m ∷ [])),
              )
        | inr (inr (fast, more, r)) ↦
            let (good, short) =
              loop-Found left (n + 1) memory parallelism target samples (some (p, m.duration))
                (seen ++ m ∷ []) found (omega arith) (ground (arith, more, e))
                (
                  ap (λ (q : Params). q.iterations + 1) set,
                  itself p n memory parallelism set,
                  time,
                  fast,
                )
                r in
            (good, omega (arith, length-append seen (m ∷ []), short))
      ]

  -- The recommended set has the memory and the lanes that were asked for and is evaluated within the
  -- target; it stands at the ceiling, or one pass more would take longer than the target. The search
  -- measures at most `max_iterations` sets.
  pub recommend_lem :
      (memory parallelism : ℕ) (target : Duration) (samples : ℕ) (r : Recommendation)
      → recommend time_of memory parallelism target samples ≡ ok r
      → (r.params ≡ with_iterations r.params.iterations memory parallelism)
        × (r.measured ≡ taken r.params samples)
        × (ltb_ℤ target r.measured ≡ false)
        × (((r.at_ceiling ≡ true) × (r.params.iterations ≡ max_iterations))
            ⊎ (ltb_ℤ target
                  (taken (with_iterations (r.params.iterations + 1) memory parallelism) samples)
                ≡ true))
        × (length r.measurements ≤ max_iterations)
  unfolding recommend
  recommend_lem memory parallelism target samples r h =
      elim (Result-cases (
        recommend_loop time_of max_iterations min_iterations memory parallelism target samples none
          [])) [
            | inr (e, k) ↦ absurd (ground (arith, h, k))
            | inl ((none, c, seen), k) ↦ absurd (ground (arith, h, k))
            | inl ((some (p, d), c, seen), k) ↦
                let (good, short) =
                  loop-Found max_iterations min_iterations memory parallelism target samples none []
                    (some (p, d), c, seen) refl (omega arith) refl k in
                ground (arith, h, k, good, short)
          ]
