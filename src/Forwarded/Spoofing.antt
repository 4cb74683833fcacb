-- ===== src/Forwarded/Spoofing.antt =====
-- The entry that `Resolve` reads is the one its own proxies wrote.
use nise_and_go.Common.{
  suc, ◌+◌, ◌-◌, ◌≤◌, ◌≡◌, refl, sym, ap, ◌∙◌, ◌↔◌, inl, inr, false, List, [], ◌∷◌, ◌++◌, Option,
  none, some, arith, ltb, ◌==◌, if◌then◌else◌, length, length-append, length-map, get_elem?, map,
  append_assoc, append-nil, Bool-cases, Option-cases,
}
use nise_and_go.Common.Text.{Bytes, All, split}
use nise_and_go.Common.Space.{trim_space}
use nise_and_go.Forwarded.Policy.{
  Net, Policy, HttpRequest, take_entries, flatten, nth_from_right, resolve, parse_forwarded_address,
  max_forwarded_entries, max_header_bytes,
}

-- The entries of a header, by its description: every value split at its commas, each part trimmed.
abbrev pub entries_of : List Bytes → List Bytes
entries_of [] = []
entries_of (v ∷ vs) = map trim_space (split b',' v) ++ entries_of vs

take_entries_lem :
    (entries parts : List Bytes)
    → length entries ≤ max_forwarded_entries
    → take_entries entries parts ≡ (
        if ltb max_forwarded_entries (length entries + length parts)
        then none
        else some (entries ++ map trim_space parts))
unfolding take_entries
take_entries_lem entries [] h = rw (append-nil entries) ground arith
take_entries_lem entries (p ∷ ps) h =
    let more = entries ++ trim_space p ∷ [] in
    let longer : length more ≡ suc (length entries) =
      omega (arith, length-append entries (trim_space p ∷ [])) in
    elim (Bool-cases (length entries == max_forwarded_entries)) [
      | inl e ↦ ground (arith, e)
      | inr e ↦
          let rest = take_entries_lem more ps (ground (arith, e, h, longer)) in
          let joined : more ++ map trim_space ps ≡ entries ++ trim_space p ∷ map trim_space ps =
            append_assoc entries (trim_space p ∷ []) (map trim_space ps) in
          ground (arith, e, rest, joined, longer)
    ]

pub flatten_sound :
    (taken vs : List Bytes) {entries : List Bytes}
    → length taken ≤ max_forwarded_entries
    → flatten taken vs ≡ some entries
    → (entries ≡ taken ++ entries_of vs)
      × (length entries ≤ max_forwarded_entries)
      × All (λ v. length v ≤ max_header_bytes) vs
unfolding flatten
flatten_sound taken [] {entries} h f =
    (ground (arith, f, append-nil taken), ground (arith, f, h), tt)
flatten_sound taken (v ∷ vs) {entries} h f =
    let parts = split b',' v in
    let step = take_entries_lem taken parts h in
    elim (Option-cases (take_entries taken parts)) [
      | inl e ↦ absurd (ground (arith, e, f))
      | inr (more, e) ↦
          let same : taken ++ map trim_space parts ≡ more = ground (arith, e, step) in
          let longer = length-append taken (map trim_space parts) in
          let mapped = length-map parts trim_space in
          let small : length more ≤ max_forwarded_entries =
            ground (arith, e, step, ap length same, longer, mapped) in
          let (all, bound, rest) =
            flatten_sound more vs {entries = entries} small (ground (arith, e, f)) in
          (
            all
                ∙ ap (λ x. x ++ entries_of vs) (sym same)
                ∙ append_assoc taken (map trim_space parts) (entries_of vs),
            bound,
            (ground (arith, f), rest),
          )
    ]

pub flatten_complete :
    (taken vs : List Bytes)
    → length taken + length (entries_of vs) ≤ max_forwarded_entries
    → All (λ v. length v ≤ max_header_bytes) vs
    → flatten taken vs ≡ some (taken ++ entries_of vs)
unfolding flatten
flatten_complete taken [] h a = ap some (sym (append-nil taken))
flatten_complete taken (v ∷ vs) h a =
    let trimmed = map trim_space (split b',' v) in
    let mapped = length-map (split b',' v) trim_space in
    let both = length-append trimmed (entries_of vs) in
    let longer = length-append taken trimmed in
    let step : take_entries taken (split b',' v) ≡ some (taken ++ trimmed) =
      ground (arith, take_entries_lem taken (split b',' v) (omega arith), mapped, both, h) in
    ground (
      arith,
      step,
      a.0,
      flatten_complete (taken ++ trimmed) vs (omega arith) a.1,
      append_assoc taken trimmed (entries_of vs),
    )

-- The loops of `nthFromRightOf` give the entries of the header, in order, exactly when no value of it
-- is longer than 4096 bytes and the entries are at most 64; otherwise they give up.
pub flatten_iff :
    (values entries : List Bytes)
    → (flatten [] values ≡ some entries) ↔ (
        (entries ≡ entries_of values)
        × (length entries ≤ max_forwarded_entries)
        × All (λ v. length v ≤ max_header_bytes) values)
flatten_iff values entries = (
  λ f. flatten_sound [] values {entries = entries} (omega arith) f,
  λ (same, bound, small).
      flatten_complete [] values (omega (arith, ap length same)) small ∙ ap some (sym same),
)

get_elem?-append :
    (front own : List Bytes) (e : Bytes) → get_elem? (front ++ e ∷ own) (length front) ≡ some e
get_elem?-append [] own e = refl
get_elem?-append (x ∷ front) own e = get_elem?-append front own e

pub nth_of_entries :
    {T : Type 0} (values front own : List Bytes) (e : Bytes) (parse : Bytes → Option T)
    → flatten [] values ≡ some (front ++ e ∷ own)
    → nth_from_right values (suc (length own)) parse ≡ parse e
unfolding nth_from_right
nth_of_entries values front own e parse h =
    let long = length-append front (e ∷ own) in
    let index : length (front ++ e ∷ own) - suc (length own) ≡ length front = omega (arith, long) in
    let enough : ltb (length (front ++ e ∷ own)) (suc (length own)) ≡ false =
      ground (arith, long) in
    rw (h, nth_from_right, enough, index, get_elem?-append front own e) refl

-- The client that a request is attributed to depends on nothing in front of the last `hops` entries
-- of its header, which the trusted proxies wrote: two requests from one peer, within the limits and
-- with the same last `hops` entries, are attributed to one client, whatever else their clients sent.
pub client_unforgeable :
    {A N : Type 0} (net : Net A N) (p : Policy N) (r s : HttpRequest)
    (front front2 own : List Bytes) (e : Bytes)
    → p.hops ≡ suc (length own)
    → r.remote_addr ≡ s.remote_addr
    → flatten [] r.forwarded_for ≡ some (front ++ e ∷ own)
    → flatten [] s.forwarded_for ≡ some (front2 ++ e ∷ own)
    → (resolve net p r).client_ip ≡ (resolve net p s).client_ip
unfolding resolve
client_unforgeable net p r s front front2 own e hops peer f g =
    let parse = parse_forwarded_address net in
    let first = nth_of_entries r.forwarded_for front own e parse f in
    let second = nth_of_entries s.forwarded_for front2 own e parse g in
    ground (arith, hops, peer, first, second)
