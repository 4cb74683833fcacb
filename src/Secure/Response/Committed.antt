-- ===== src/Secure/Response/Committed.antt =====
-- The invariant of the middleware's writer, and what is sent in the end.
use nise_and_go.Common.{
  subst, ◌∙◌, if-intro, sym, ℕ, ◌≡◌, refl, Bool, true, false, ◌&&◌, ◌||◌, not, List, [], ◌∷◌, ◌++◌,
  Option, none, some, arith, ◌==◌,
}
use nise_and_go.Common.Text.{Bytes, between, All}
use nise_and_go.Secure.Policy.{Policy, policy_valid}
use nise_and_go.Secure.Response.{
  Header, NonceState, get_nonce, Writer, Sent, informational, final, hijacked, server_status,
  server_commit, server_flush, server_hijack, apply_now, apply_policy, Call, set, del, alter,
  write_header, write, flush, hijack, ask_nonce, write_status, call, serve, start, finish,
  middleware,
}
use nise_and_go.Secure.Response.Protected.{Protects, apply-Protects}

abbrev pub block : Sent → Header
block (informational code h) = h
block (final code h) = h
block (hijacked h) = h

-- A policy without script-src never names a nonce.
abbrev pub Guarded : Policy → Sent → Type 0
Guarded p s =
    (n : NonceState) × (n.enabled ≡ p.nonce_enabled)
    × (n.enabled ≡ false → n.value ≡ [])
    × Protects p n (block s)

-- A block that ends the header: nothing is sent for the status after it.
abbrev pub ends : Sent → Bool
ends (informational code h) = false
ends (final code h) = true
ends (hijacked h) = true

abbrev pub ended : List Sent → Bool
ended [] = false
ended (s ∷ ss) = ends s || ended ss

All-snoc : {A : Type 0} (P : A → Type 0) (l : List A) (a : A) → All P l → P a → All P (l ++ a ∷ [])
All-snoc P [] a h k = (k, tt)
All-snoc P (x ∷ l) a h k = (h.0, All-snoc P l a h.1 k)

ended-snoc : (l : List Sent) (s : Sent) → ended (l ++ s ∷ []) ≡ (ended l || ends s)
ended-snoc [] s = ground arith
ended-snoc (x ∷ l) s = ground (arith, ended-snoc l s)

-- What is always so: all that was sent is guarded, and the server knows whether the header has ended.
abbrev Settled : Policy → Writer → Type 0
Settled p w =
    All (Guarded p) w.sent
    × (w.committed ≡ ended w.sent)
    × (w.nonce.enabled ≡ p.nonce_enabled)
    × (w.nonce.enabled ≡ false → w.nonce.value ≡ [])
    × (w.can_flush ≡ true)

-- Between two calls of a handler.
abbrev Between : Policy → Writer → Type 0
Between p w = Settled p w × (w.applied ≡ true → w.committed ≡ true)

-- Ready to be committed.
abbrev Ready : Policy → Writer → Type 0
Ready p w = Settled p w × (w.committed ≡ false → Protects p w.nonce w.header)

apply_now-Ready : (p : Policy) (w : Writer) → Settled p w → Ready p (apply_now p w)
unfolding apply_now
apply_now-Ready p w i = (i, λ c. apply-Protects p w.nonce w.header)

apply_policy-Ready : (p : Policy) (w : Writer) → Between p w → Ready p (apply_policy p w)
unfolding apply_policy
apply_policy-Ready p w (i, k) =
    if-intro (Ready p) w.applied w (apply_now p (record w { applied = true }))
      (λ e. (i, λ c. absurd (cc (k e, c)))) λ e. apply_now-Ready p (record w { applied = true }) i

-- Once more changes nothing that matters.
again-Ready : (p : Policy) (w : Writer) → Ready p w → Ready p (apply_policy p w)
unfolding apply_policy
again-Ready p w (i, k) =
    if-intro (Ready p) w.applied w (apply_now p (record w { applied = true })) (λ e. (i, k))
      λ e. apply_now-Ready p (record w { applied = true }) i

-- Sending a block that is guarded.
snoc-Settled :
    (p : Policy) (w : Writer) (s : Sent) (c : Bool)
    → Settled p w
    → Protects p w.nonce (block s)
    → c ≡ (w.committed || ends s)
    → Settled p (record w { committed = c; sent = w.sent ++ s ∷ [] })
snoc-Settled p w s c (g, e, m, n, f) k h = (
  All-snoc (Guarded p) w.sent s g (w.nonce, m, n, k),
  ground (arith, ended-snoc w.sent s, e, h),
  m,
  n,
  f,
)

server_commit-Settled :
    (p : Policy) (w : Writer)
    → Ready p w
    → Settled p (server_commit w) × ((server_commit w).committed ≡ true)
unfolding server_commit
server_commit-Settled p w (i, k) =
    if-intro (λ (v : Writer). Settled p v × (v.committed ≡ true)) w.committed w
      (record w { committed = true; sent = w.sent ++ final 200 w.header ∷ [] }) (λ e. (i, e))
      λ e. (snoc-Settled p w (final 200 w.header) true i (k e) (ground arith), refl)

server_status-Settled :
    (p : Policy) (code : ℕ) (w : Writer)
    → (between 100 199 code && not (code == 101)) ≡ false
    → Ready p w
    → Settled p (server_status code w) × ((server_status code w).committed ≡ true)
unfolding server_status
server_status-Settled p code w f (i, k) = rw f (
    if-intro (λ (v : Writer). Settled p v × (v.committed ≡ true)) w.committed w
      (record w { committed = true; sent = w.sent ++ final code w.header ∷ [] }) (λ e. (i, e))
      λ e. (snoc-Settled p w (final code w.header) true i (k e) (ground arith), refl))

informational-Settled :
    (p : Policy) (code : ℕ) (w : Writer)
    → (between 100 199 code && not (code == 101)) ≡ true
    → Ready p w
    → Settled p (server_status code w)
      × ((server_status code w).committed ≡ w.committed)
      × ((server_status code w).applied ≡ w.applied)
unfolding server_status
informational-Settled p code w f (i, k) = rw f (
    if-intro (λ (v : Writer). Settled p v × (v.committed ≡ w.committed) × (v.applied ≡ w.applied))
      w.committed w (record w { sent = w.sent ++ informational code w.header ∷ [] })
      (λ e. (i, refl, refl))
      λ e. (
        snoc-Settled p w (informational code w.header) w.committed i (k e) (ground arith),
        refl,
        refl,
      ))

-- A committed writer stays between calls whatever `applied` is.
committed-Between : (p : Policy) (w : Writer) → Settled p w × (w.committed ≡ true) → Between p w
committed-Between p w (i, k) = (i, λ a. k)

write_status-Between :
    (p : Policy) (code : ℕ) (w : Writer) → Between p w → Between p (write_status p code w)
unfolding write_status apply_now
write_status-Between p code w (i, k) =
    if-intro (Between p) (between 100 199 code && not (code == 101))
      (server_status code (apply_now p w)) (server_status code (apply_policy p w))
      (λ e.
        let (s, c, a) = informational-Settled p code (apply_now p w) e (apply_now-Ready p w i) in
        (s, λ h. c ∙ k (sym a ∙ h)))
      λ e.
        committed-Between p (server_status code (apply_policy p w))
          (server_status-Settled p code (apply_policy p w) e (apply_policy-Ready p w (i, k)))

flush-Settled :
    (p : Policy) (w : Writer)
    → Ready p w
    → Settled p (server_flush w) × ((server_flush w).committed ≡ true)
unfolding server_flush
flush-Settled p w (i, k) =
    if-intro (λ (v : Writer). Settled p v × (v.committed ≡ true)) w.can_flush (server_commit w) w
      (λ e. server_commit-Settled p w (i, k)) λ e. absurd (cc (e, i.4))

hijack-Settled :
    (p : Policy) (w : Writer)
    → Ready p w
    → Protects p w.nonce w.header
    → Settled p (server_hijack w) × ((server_hijack w).committed ≡ true)
unfolding server_hijack
hijack-Settled p w (i, k) h = (snoc-Settled p w (hijacked w.header) true i h (ground arith), refl)

get_nonce-kept :
    (p : Policy) (random : Bytes) (n : NonceState)
    → n.enabled ≡ p.nonce_enabled
    → (n.enabled ≡ false → n.value ≡ [])
    → let m = (get_nonce random n).0 in
      (m.enabled ≡ p.nonce_enabled) × (m.enabled ≡ false → m.value ≡ [])
unfolding get_nonce
get_nonce-kept p random n e v = ground (arith, e, v)

-- Every call leaves the writer between calls, or, if it panics, ready for the status of a recovery.
call-Between :
    (p : Policy) (c : Call p) (w : Writer)
    → Between p w
    → ((call p c w).1 ≡ true → Between p (call p c w).0)
      × ((call p c w).1 ≡ false → Ready p (call p c w).0)
unfolding call apply_now
call-Between p (set name value) w (i, k) = (λ t. (i, k), λ t. absurd (cc t))
call-Between p (del name) w (i, k) = (λ t. (i, k), λ t. absurd (cc t))
call-Between p (alter change) w (i, k) = (λ t. (i, k), λ t. absurd (cc t))
call-Between p (write_header code) w b =
    if-intro (λ (r : Writer × Bool). (r.1 ≡ true → Between p r.0) × (r.1 ≡ false → Ready p r.0))
      (between 100 999 code || w.committed) (write_status p code w, true) (apply_policy p w, false)
      (λ e. (λ t. write_status-Between p code w b, λ t. absurd (cc t)))
      λ e. (λ t. absurd (cc t), λ t. apply_policy-Ready p w b)
call-Between p write w b = (
  λ t.
      committed-Between p (server_commit (apply_policy p w))
        (server_commit-Settled p (apply_policy p w) (apply_policy-Ready p w b)),
  λ t. absurd (cc t),
)
call-Between p flush w b = (
  λ t.
      committed-Between p (server_flush (apply_policy p w))
        (flush-Settled p (apply_policy p w) (apply_policy-Ready p w b)),
  λ t. absurd (cc t),
)
call-Between p (hijack done) w (i, k) = (
  λ t.
      if-intro (Between p) done (record (server_hijack (apply_now p w)) { applied = true })
        (apply_now p w)
        (λ e.
          committed-Between p (record (server_hijack (apply_now p w)) { applied = true })
            (hijack-Settled p (apply_now p w) (apply_now-Ready p w i)
              (apply-Protects p w.nonce w.header)))
        λ e. (i, k),
  λ t. absurd (cc t),
)
call-Between p (ask_nonce random) w (i, k) =
    let (e, v) = get_nonce-kept p random w.nonce i.2 i.3 in
    (λ t. ((i.0, i.1, e, v, i.4), k), λ t. absurd (cc t))

serve-Ready :
    (p : Policy) (calls : List (Call p)) (w : Writer)
    → Between p w
    → let (v, ended) = serve p calls w in (ended ≡ true → Between p v) × (ended ≡ false → Ready p v)
unfolding serve
serve-Ready p [] w b = (λ t. b, λ t. absurd (cc t))
serve-Ready p (c ∷ calls) w b =
    let (on, stopped) = call-Between p c w b in
    if-intro (λ (r : Writer × Bool). (r.1 ≡ true → Between p r.0) × (r.1 ≡ false → Ready p r.0))
      (call p c w).1 (serve p calls (call p c w).0) ((call p c w).0, false)
      (λ e. serve-Ready p calls (call p c w).0 (on e)) λ e. (λ t. absurd (cc t), λ t. stopped e)

finish-Settled :
    (p : Policy) (r : Writer × Bool)
    → (r.1 ≡ true → Between p r.0) × (r.1 ≡ false → Ready p r.0)
    → Settled p (finish p r) × ((finish p r).committed ≡ true)
unfolding finish
finish-Settled p (w, true) (b, r) =
    server_commit-Settled p (apply_policy p w) (apply_policy-Ready p w (b refl))
finish-Settled p (w, false) (b, r) =
    server_status-Settled p 500 (apply_policy p w) refl (again-Ready p w (r refl))

start-Between : (p : Policy) (h : Header) → Between p (start p true h)
start-Between p h = ((tt, refl, refl, λ e. refl, refl), λ e. absurd (cc e))

-- Whatever a handler does, and whatever the header map held before, every block of headers that goes out
-- carries exactly the policy's values, and some block ends the header. The server can be flushed.
pub middleware-Guarded :
    (p : Policy) (h : Header) (calls : List (Call p)) (w : Writer)
    → middleware p true h calls ≡ some w
    → All (Guarded p) w.sent × (ended w.sent ≡ true)
unfolding middleware
middleware-Guarded p h calls w e =
    let done = finish p (serve p calls (start p true h)) in
    let (s, c) =
      finish-Settled p (serve p calls (start p true h))
        (serve-Ready p calls _ (start-Between p h)) in
    if-intro (λ (o : Option Writer). o ≡ some w → All (Guarded p) w.sent × (ended w.sent ≡ true))
      (policy_valid p) (some done) none
      (λ v q.
        let same : done ≡ w = cc q in
        subst (λ (x : Writer). All (Guarded p) x.sent × (ended x.sent ≡ true)) same
          (s.0, sym s.1 ∙ c))
      (λ v q. absurd (cc q)) e
