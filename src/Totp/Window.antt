-- ===== src/Totp/Window.antt =====
-- At which step a submitted code verifies.
use nise_and_go.Common.{
  ℕ, zero, suc, ◌+◌, ◌-◌, ◌*◌, ◌≤◌, ◌<◌, ◌≡◌, refl, ap, ◌∙◌, ◌⊎◌, inl, inr, Option, none, some,
  arith, ◌==◌, length, if◌then◌else◌, Bool-cases, Option-cases,
}
use nise_and_go.Common.Int.{ℤ, pos, ◌+ℤ◌, ◌-ℤ◌}
use nise_and_go.Common.Text.{Bytes, str_eq, str_eq-eq, str_eq_refl}
use nise_and_go.Totp.Code.{
  Secret, max_skew_steps, step, code_at, normalize_code, verify_loop, verify,
}

module _ (hmac : Bytes → Bytes → Bytes) where
  -- What the loop finds is what it had found, or a step of its range whose code is the one submitted.
  loop_sound :
      (key : Secret) (c : Bytes) (count a : ℕ) (found : Option ℤ) (s : ℤ)
      → verify_loop hmac key c count (pos a) found ≡ some (some s)
      → (found ≡ some s)
        ⊎ ((t : ℕ) × (s ≡ pos t) × (a ≤ t) × (t < a + count) × (code_at hmac key s ≡ some c))
  unfolding verify_loop ◌+ℤ◌
  loop_sound key c zero a found s h = inl (ground (arith, h))
  loop_sound key c (suc count) a found s h = elim (Option-cases (code_at hmac key (pos a))) [
    | inl e ↦ absurd (ground (arith, e, h))
    | inr (candidate, e) ↦ elim (Bool-cases (str_eq candidate c)) [
      | inr f ↦ elim (loop_sound key c count (a + 1) found s (ground (arith, e, f, h))) [
        | inl q ↦ inl q
        | inr (t, q, low, high, same) ↦ inr (t, q, omega (arith, low), omega (arith, high), same)
      ]
      | inl f ↦ elim (loop_sound key c count (a + 1) (some (pos a)) s (ground (arith, e, f, h))) [
        | inl q ↦
            let here : s ≡ pos a = cc q in
            inr (
              a,
              here,
              omega arith,
              omega arith,
              ap (code_at hmac key) here ∙ e ∙ ap some (str_eq-eq candidate c f),
            )
        | inr (t, q, low, high, same) ↦ inr (t, q, omega (arith, low), omega (arith, high), same)
      ]
    ]
  ]

  -- From a step on that is not before the epoch, the loop ends and keeps what it had found.
  loop_keeps :
      (key : Secret) (c : Bytes) (count a f : ℕ)
      → 0 < length key
      → f ≤ a
      → (t : ℕ) × (verify_loop hmac key c count (pos a) (some (pos f)) ≡ some (some (pos t)))
        × (f ≤ t)
  unfolding verify_loop ◌+ℤ◌ code_at
  loop_keeps key c zero a f k h = (f, refl, omega arith)
  loop_keeps key c (suc count) a f k h = elim (Option-cases (code_at hmac key (pos a))) [
    | inl e ↦ absurd (ground (arith, e, k))
    | inr (candidate, e) ↦ elim (Bool-cases (str_eq candidate c)) [
      | inl q ↦
          let (t, r, low) = loop_keeps key c count (a + 1) a k (omega arith) in
          (t, ground (arith, e, q, r), omega (arith, low, h))
      | inr q ↦
          let (t, r, low) = loop_keeps key c count (a + 1) f k (omega (arith, h)) in
          (t, ground (arith, e, q, r), low)
    ]
  ]

  -- A step of the range whose code is the one submitted is found, or a later one is.
  loop_finds :
      (key : Secret) (c : Bytes) (count a i : ℕ) (found : Option ℤ)
      → 0 < length key
      → a ≤ i
      → i < a + count
      → code_at hmac key (pos i) ≡ some c
      → (t : ℕ) × (verify_loop hmac key c count (pos a) found ≡ some (some (pos t))) × (i ≤ t)
  unfolding verify_loop ◌+ℤ◌ code_at
  loop_finds key c zero a i found k low high h = absurd (omega arith)
  loop_finds key c (suc count) a i found k low high h =
      elim (Option-cases (code_at hmac key (pos a))) [
        | inl e ↦ absurd (ground (arith, e, k))
        | inr (candidate, e) ↦ elim (Bool-cases (a == i)) [
          | inl here ↦
              let same : candidate ≡ c = ground (arith, e, here, h) in
              let (t, r, above) = loop_keeps key c count (a + 1) a k (omega arith) in
              (t, ground (arith, e, same, r, str_eq_refl c), ground (arith, above, here))
          | inr later ↦
              let (t, r, above) =
                loop_finds key c count (a + 1) i
                  (if str_eq candidate c then some (pos a) else found) k
                  (ground (arith, later, low)) (omega (arith, high)) h in
              (t, ground (arith, e, r), above)
        ]
      ]

  start_pos : (n skew : ℕ) → skew ≤ n → pos n -ℤ pos skew ≡ pos (n - skew)
  unfolding ◌-ℤ◌
  start_pos n skew h = ground arith

  verify_opened :
      (key : Secret) (submitted c : Bytes) (at : ℤ) (n skew : ℕ)
      → step at ≡ pos n
      → skew ≤ n
      → skew ≤ max_skew_steps
      → 0 < length key
      → normalize_code submitted ≡ some c
      → verify hmac key submitted at (pos skew)
        ≡ elim (verify_loop hmac key c (2 * skew + 1) (pos (n - skew)) none) [
          | none ↦ none
          | some found ↦ found
        ]
  unfolding verify
  verify_opened key submitted c at n skew s low high k m =
      ground (arith, s, start_pos n skew low, high, k, m)

  -- Where the whole window lies after the epoch and a submission normalises to `c`: a step that
  -- `Verify` reports is at most `skew` steps from the present and has the code `c`; and if any step of
  -- the window has the code `c`, `Verify` reports one that is not earlier. So who stores the step and
  -- refuses what is not above it refuses the same code in the same window.
  pub verify_lem :
      (key : Secret) (submitted c : Bytes) (at : ℤ) (n skew : ℕ)
      → step at ≡ pos n
      → skew ≤ n
      → skew ≤ max_skew_steps
      → 0 < length key
      → normalize_code submitted ≡ some c
      → ((s : ℤ)
          → verify hmac key submitted at (pos skew) ≡ some s
          → (t : ℕ) × (s ≡ pos t) × (n ≤ t + skew) × (t ≤ n + skew) × (code_at hmac key s ≡ some c))
        × ((i : ℕ)
            → n ≤ i + skew
            → i ≤ n + skew
            → code_at hmac key (pos i) ≡ some c
            → (t : ℕ) × (verify hmac key submitted at (pos skew) ≡ some (pos t)) × (i ≤ t))
  verify_lem key submitted c at n skew s low high k m =
      let opened = verify_opened key submitted c at n skew s low high k m in
      let run = verify_loop hmac key c (2 * skew + 1) (pos (n - skew)) none in
      (
        λ x h.
            let found : run ≡ some (some x) = ground (arith, opened, h) in
            elim (loop_sound key c (2 * skew + 1) (n - skew) none x found) [
              | inl q ↦ absurd (ground (arith, q))
              | inr (t, q, above, below, same) ↦
                  (t, q, omega (arith, above, low), omega (arith, below, low), same)
            ],
        λ i above below same.
            let (t, r, later) =
              loop_finds key c (2 * skew + 1) (n - skew) i none k (omega (arith, above))
                (omega (arith, below, low)) same in
            (t, ground (arith, opened, r), later),
      )
