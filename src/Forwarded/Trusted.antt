-- ===== src/Forwarded/Trusted.antt =====
-- When `Resolve` believes the forwarded headers, and what it takes from them then.
use nise_and_go.Common.{
  ℕ, zero, suc, ◌-◌, ◌≤◌, ◌<◌, ◌≡◌, refl, sym, ap, ◌∙◌, inl, inr, true, false, List, [], ◌∷◌, ◌++◌,
  Option, some, arith, length, length-append, get_elem?, Option-cases,
}
use nise_and_go.Common.Text.{Bytes, All}
use nise_and_go.Forwarded.Policy.{
  Net, Policy, HttpRequest, flatten, nth_from_right, resolve, permits_peer, peer_address,
  parse_forwarded_address, max_forwarded_entries, max_header_bytes,
}
use nise_and_go.Forwarded.Spoofing.{entries_of, flatten_sound, flatten_complete, nth_of_entries}

parted :
    (l : List Bytes) (i : ℕ) (e : Bytes)
    → get_elem? l i ≡ some e
    → (front : List Bytes) × (own : List Bytes) × (l ≡ front ++ e ∷ own) × (length front ≡ i)
parted [] i e h = cc
parted (x ∷ l) zero e h = ([], l, cc h, refl)
parted (x ∷ l) (suc i) e h =
    let (front, own, same, long) = parted l i e h in (x ∷ front, own, ap (◌∷◌ x) same, ap suc long)

-- The entry that a header gives, by the header's entries.
abbrev pub Gives : {T : Type 0} → List Bytes → ℕ → (Bytes → Option T) → T → Type 0
Gives values hops parse t =
    (front : List Bytes) × (e : Bytes) × (own : List Bytes) × (entries_of values ≡ front ++ e ∷ own)
    × (hops ≡ suc (length own))
    × (length (entries_of values) ≤ max_forwarded_entries)
    × All (λ v. length v ≤ max_header_bytes) values
    × (parse e ≡ some t)

nth-Gives :
    {T : Type 0} (values : List Bytes) (hops : ℕ) (parse : Bytes → Option T) (t : T)
    → 0 < hops
    → nth_from_right values hops parse ≡ some t
    → Gives values hops parse t
unfolding nth_from_right
nth-Gives values hops parse t positive h = elim (Option-cases (flatten [] values)) [
  | inl e ↦ absurd (ground (arith, e, h))
  | inr (entries, e) ↦
      let (same, bound, small) = flatten_sound [] values {entries = entries} (omega arith) e in
      elim (Option-cases (get_elem? entries (length entries - hops))) [
        | inl n ↦ absurd (ground (arith, e, n, h))
        | inr (x, g) ↦
            let enough : hops ≤ length entries = ground (arith, e, g, h) in
            let (front, own, parts, long) = parted entries (length entries - hops) x g in
            let split_length = length-append front (x ∷ own) in
            (
              front,
              x,
              own,
              sym same ∙ parts,
              omega (arith, enough, ap length parts, long, split_length, positive),
              omega (arith, bound, ap length same),
              small,
              ground (arith, e, g, h),
            )
      ]
]

Gives-nth :
    {T : Type 0} (values : List Bytes) (hops : ℕ) (parse : Bytes → Option T) (t : T)
    → Gives values hops parse t
    → nth_from_right values hops parse ≡ some t
Gives-nth values hops parse t (front, e, own, parts, count, bound, small, parsed) =
    let whole : flatten [] values ≡ some (front ++ e ∷ own) =
      flatten_complete [] values (omega (arith, bound)) small ∙ ap some parts in
    rw count (nth_of_entries values front own e parse whole) ∙ parsed

untrusted :
    {A N : Type 0} (net : Net A N) (p : Policy N) (r : HttpRequest)
    → (resolve net p r).trusted ≡ false
    → resolve net p r
      ≡ resolve net p (record r { forwarded_for = []; forwarded_proto = []; forwarded_host = [] })
unfolding resolve nth_from_right flatten
untrusted net p r f = ground (arith, f)

-- Forwarded headers are believed exactly if a proxy is declared, the peer may be it, and the header has a
-- client: an entry with `hops - 1` entries behind it that is an address, among at most 64 entries in values
-- of at most 4096 bytes. That address is then the client. Otherwise the view takes nothing from the
-- headers: it is that of the same request without them.
pub resolve_trusted :
    {A N : Type 0} (net : Net A N) (p : Policy N) (r : HttpRequest)
    → ((resolve net p r).trusted ≡ true
        → (0 < p.hops)
          × (permits_peer net p (peer_address net r.remote_addr) ≡ true)
          × (a : A) × Gives r.forwarded_for p.hops (parse_forwarded_address net) a
          × ((resolve net p r).client_ip ≡ some a))
      × ((a : A)
          → 0 < p.hops
          → permits_peer net p (peer_address net r.remote_addr) ≡ true
          → Gives r.forwarded_for p.hops (parse_forwarded_address net) a
          → (resolve net p r).trusted ≡ true)
      × ((resolve net p r).trusted ≡ false
          → resolve net p r
            ≡ resolve net p
                (record r { forwarded_for = []; forwarded_proto = []; forwarded_host = [] }))
unfolding resolve
resolve_trusted net p r = (
  λ t. elim (Option-cases (nth_from_right r.forwarded_for p.hops (parse_forwarded_address net))) [
    | inl n ↦ absurd (ground (arith, n, t))
    | inr (a, n) ↦
        let positive : 0 < p.hops = ground (arith, t) in
        (
          positive,
          ground (arith, t),
          a,
          nth-Gives r.forwarded_for p.hops (parse_forwarded_address net) a positive n,
          ground (arith, t, n),
        )
  ],
  λ a positive permitted gives.
      let n = Gives-nth r.forwarded_for p.hops (parse_forwarded_address net) a gives in
      ground (arith, positive, permitted, n),
  λ f. untrusted net p r f,
)
