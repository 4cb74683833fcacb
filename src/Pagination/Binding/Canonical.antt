-- ===== src/Pagination/Binding/Canonical.antt =====
-- The hashed buffer determines the query, and the order of the parameters does not enter it.
use nise_and_go.Common.{
  length-map, ◌≡◌, refl, sym, ap, ◌∙◌, true, false, inl, inr, List, [], ◌∷◌, ◌++◌, arith, length,
  Bool-cases, append_assoc,
}
use nise_and_go.Common.Text.{Bytes, All, str_eq, str_eq-eq}
use nise_and_go.Common.Keys.{
  length-sort, All-of_contains, All-contains, sort, contains, contains-sort, sort-eq, Distinct,
}
use nise_and_go.Pagination.Frame.{frame, Fits, frame-injective, uint64_bytes-injective}
use nise_and_go.Pagination.Binding.{
  Values, values_of, keys, frames, entry, entries, canonical, new_binding,
}

-- Every length in the query fits a uint64.
abbrev pub FitsValues : List Bytes → Type 0
FitsValues vs = Fits (length vs) × All (λ v. Fits (length v)) vs

abbrev pub FitsEntries : Values → Type 0
FitsEntries [] = Unit {0}
FitsEntries ((k, vs) ∷ f) = Fits (length k) × FitsValues vs × FitsEntries f

values_of-Fits : (f : Values) (k : Bytes) → FitsEntries f → FitsValues (values_of f k)
unfolding values_of
values_of-Fits [] k h = (omega arith, tt)
values_of-Fits ((j, vs) ∷ f) k h = elim (Bool-cases (str_eq j k)) [
  | inl e ↦ rw e h.1
  | inr e ↦ rw e (values_of-Fits f k h.2)
]

key-Fits : (f : Values) (k : Bytes) → FitsEntries f → contains (keys f) k ≡ true → Fits (length k)
unfolding contains
key-Fits [] k h c = cc
key-Fits ((j, vs) ∷ f) k h c = ground (arith, str_eq-eq j k, key-Fits f k h.2)

frames-injective :
    (vs ws : List Bytes) (s t : Bytes)
    → length vs ≡ length ws
    → All (λ v. Fits (length v)) vs
    → All (λ v. Fits (length v)) ws
    → frames vs ++ s ≡ frames ws ++ t
    → (vs ≡ ws) × (s ≡ t)
unfolding frames
frames-injective [] [] s t l h k e = (refl, e)
frames-injective [] (w ∷ ws) s t l h k e = absurd (omega arith)
frames-injective (v ∷ vs) [] s t l h k e = absurd (omega arith)
frames-injective (v ∷ vs) (w ∷ ws) s t l h k e =
    let (first, e₁) =
      frame-injective v w (frames vs ++ s) (frames ws ++ t) h.0 k.0
        (sym (append_assoc (frame v) (frames vs) s) ∙ e ∙ append_assoc (frame w) (frames ws) t) in
    let (rest, e₂) = frames-injective vs ws s t (omega arith) h.1 k.1 e₁ in (cc (first, rest), e₂)

module _ (f g : Values) (hf : FitsEntries f) (hg : FitsEntries g) where
  entry-injective :
      (k j : Bytes) (s t : Bytes)
      → Fits (length k)
      → Fits (length j)
      → entry f k ++ s ≡ entry g j ++ t
      → (k ≡ j) × (values_of f k ≡ values_of g j) × (s ≡ t)
  unfolding entry
  entry-injective k j s t hk hj e =
      let (nf, af) = values_of-Fits f k hf in
      let (ng, ag) = values_of-Fits g j hg in
      let (same_key, e₁) =
        frame-injective k j _ _ hk hj
          (sym (append_assoc (frame k) _ s) ∙ e ∙ append_assoc (frame j) _ t) in
      let (count, e₂) =
        uint64_bytes-injective (length (values_of f k)) (length (values_of g j))
          (frames (values_of f k) ++ s) (frames (values_of g j) ++ t) nf ng e₁ in
      let (same_values, e₃) = frames-injective (values_of f k) (values_of g j) s t count af ag e₂ in
      (same_key, same_values, e₃)

  entries-injective :
      (ks js : List Bytes)
      → length ks ≡ length js
      → All (λ k. Fits (length k)) ks
      → All (λ k. Fits (length k)) js
      → entries f ks ≡ entries g js
      → (ks ≡ js) × All (λ k. values_of f k ≡ values_of g k) ks
  unfolding entries
  entries-injective [] [] l a b e = (refl, tt)
  entries-injective [] (j ∷ js) l a b e = absurd (omega arith)
  entries-injective (k ∷ ks) [] l a b e = absurd (omega arith)
  entries-injective (k ∷ ks) (j ∷ js) l a b e =
      let (same_key, same_values, e₁) =
        entry-injective k j (entries f ks) (entries g js) a.0 b.0 e in
      let (rest, agree) = entries-injective ks js (omega arith) a.1 b.1 e₁ in
      (cc (same_key, rest), (same_values ∙ ap (values_of g) (sym same_key), agree))

values_of_absent : (f : Values) (k : Bytes) → contains (keys f) k ≡ false → values_of f k ≡ []
unfolding contains values_of
values_of_absent [] k c = refl
values_of_absent ((j, vs) ∷ f) k c = ground (arith, values_of_absent f k)

sorted-Fits : (f : Values) → FitsEntries f → All (λ k. Fits (length k)) (sort (keys f))
sorted-Fits f h =
    All-of_contains (λ k. Fits (length k)) (sort (keys f))
      (λ k c. key-Fits f k h (sym (contains-sort (keys f) k) ∙ c))

-- Two queries hold the same parameters with the same values in the same order.
abbrev pub SameQuery : Values → Values → Type 0
SameQuery f g =
    (k : Bytes) → (contains (keys f) k ≡ contains (keys g) k) × (values_of f k ≡ values_of g k)

-- Queries that are hashed as the same buffer are the same query for the same resource, if every
-- length in them fits a uint64.
pub canonical-injective :
    (q r : Bytes) (f g : Values)
    → Fits (length q)
    → Fits (length r)
    → Fits (length f)
    → Fits (length g)
    → FitsEntries f
    → FitsEntries g
    → canonical q f ≡ canonical r g
    → (q ≡ r) × SameQuery f g
unfolding canonical
canonical-injective q r f g hq hr nf ng hf hg e =
    let lf = length-sort (keys f) ∙ length-map f (λ x. x.0) in
    let lg = length-sort (keys g) ∙ length-map g (λ x. x.0) in
    let (same_resource, e₁) = frame-injective q r _ _ hq hr e in
    let (count, e₂) =
      uint64_bytes-injective (length (sort (keys f))) (length (sort (keys g))) _ _ (omega arith)
        (omega arith) e₁ in
    let (same_keys, agree) =
      entries-injective f g hf hg (sort (keys f)) (sort (keys g)) count (sorted-Fits f hf)
        (sorted-Fits g hg) e₂ in
    (
      same_resource,
      λ k.
          let held =
            sym (contains-sort (keys f) k)
            ∙ ap (λ l. contains l k) same_keys
            ∙ contains-sort (keys g) k in
          (held, agree_at k held agree),
    )
  where
    agree_at :
        (k : Bytes)
        → contains (keys f) k ≡ contains (keys g) k
        → All (λ j. values_of f j ≡ values_of g j) (sort (keys f))
        → values_of f k ≡ values_of g k
    agree_at k held agree = elim (Bool-cases (contains (keys f) k)) [
      | inl c ↦
          All-contains (λ j. values_of f j ≡ values_of g j) (sort (keys f)) k agree
            (contains-sort (keys f) k ∙ c)
      | inr c ↦ values_of_absent f k c ∙ sym (values_of_absent g k (sym held ∙ c))
    ]

entries-SameQuery : (f g : Values) (ks : List Bytes) → SameQuery f g → entries f ks ≡ entries g ks
unfolding entries
entries-SameQuery f g [] h = refl
entries-SameQuery f g (k ∷ ks) h = rw ((h k).1, entries-SameQuery f g ks h) refl

-- The fingerprint does not depend on the order in which the map of parameters is met.
pub new_binding-SameQuery :
    (sha256 : Bytes → Bytes) (resource : Bytes) (f g : Values)
    → Distinct (keys f)
    → Distinct (keys g)
    → SameQuery f g
    → new_binding sha256 resource f ≡ new_binding sha256 resource g
unfolding new_binding canonical
new_binding-SameQuery sha256 resource f g df dg h =
    let same = sort-eq (keys f) (keys g) df dg (λ k. (h k).0) in
    rw (same, entries-SameQuery f g (sort (keys g)) h) refl
