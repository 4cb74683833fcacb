-- ===== src/Secure/Policy/Built.antt =====
-- What an accepted policy is built of, and that its Content-Security-Policy holds what it says.
use nise_and_go.Common.{
  ℕ, ◌≡◌, ◌≢◌, refl, sym, ap, ◌∙◌, ◌⊎◌, inl, inr, Bool, true, false, ◌&&◌, not, List, [], ◌∷◌, ◌++◌,
  map, Option, arith, if◌then◌else◌, Bool-cases, if-intro, subst,
}
use nise_and_go.Common.Text.{Bytes, codes, str_eq, str_eq-eq, is_empty, all_of, All}
use nise_and_go.Common.Affix.{to_lower}
use nise_and_go.Common.Keys.{contains}
use nise_and_go.Common.Result.{check-passed, guard-passed, Result, ok, err}
use nise_and_go.Base64.{url, encode, digit}
use nise_and_go.Base64.Digits.{all_of-encode}
use nise_and_go.Secure.Source.{valid_source, source_byte, unsafe_keywords}
use nise_and_go.Secure.Directive.{
  Directive, script_src, render, render_with_nonce, with_nonce, nonce_source, sort_directives,
}
use nise_and_go.Secure.Directive.Parse.{parse_csp, parse_csp-render, Word, Plain}
use nise_and_go.Secure.Builder.{
  Deployment, development, production, Profile, document, api, Builder,
}
use nise_and_go.Secure.Options.{PolicyOption, apply_options}
use nise_and_go.Secure.Options.Sources.{Accepted, AllAccepted, Sourced, apply_options-Sourced}
use nise_and_go.Secure.Policy.{
  preload_reduced, invalid_deployment, Policy, new_policy, build, built_policy, build_directives,
  profile_directives, new_builder, preload_reduced_by,
}
use nise_and_go.Secure.Response.{new_nonce}

ok-injective : {E A : Type 0} {a b : A} → ◌≡◌ {A = Result E A} (ok a) (ok b) → a ≡ b
ok-injective h = cc h

is_empty-nil : {A : Type 0} (l : List A) → is_empty l ≡ true → l ≡ []
is_empty-nil [] h = refl
is_empty-nil (x ∷ l) h = cc

deployments :
    (d : Deployment)
    → (not (str_eq d development) && not (str_eq d production)) ≡ false
    → (d ≡ development) ⊎ (d ≡ production)
deployments d h = elim (Bool-cases (str_eq d development)) [
  | inl e ↦ inl (str_eq-eq d development e)
  | inr e ↦ inr (str_eq-eq d production (ground (arith, h, e)))
]

-- An accepted policy is built from a builder without errors.
pub new_policy-built :
    (prof : Profile) (d : Deployment) (opts : List (Option PolicyOption)) (p : Policy)
    → new_policy prof d opts ≡ ok p
    → let b = apply_options opts (new_builder prof d) in
      (p ≡ built_policy b)
      × (b.errs ≡ [])
      × (preload_reduced_by b ≡ false)
      × ((d ≡ development) ⊎ (d ≡ production))
unfolding new_policy build
new_policy-built prof d opts p e =
    let b = apply_options opts (new_builder prof d) in
    let (deployed, rest) =
      guard-passed (not (str_eq d development) && not (str_eq d production))
        (invalid_deployment d ∷ []) (if is_empty b.errs then build b else err b.errs) e in
    let (clear, done) = check-passed (is_empty b.errs) b.errs (build b) rest in
    let (kept, same) =
      guard-passed (preload_reduced_by b) (preload_reduced ∷ []) (ok (built_policy b)) done in
    (sym (ok-injective same), is_empty-nil b.errs clear, kept, deployments d deployed)

Accepted-Word : (s : Bytes) → Accepted s → Word s
unfolding valid_source
Accepted-Word s h = ground (arith, h)

Accepted-safe : (s : Bytes) → Accepted s → contains unsafe_keywords (to_lower s) ≡ false
unfolding valid_source
Accepted-safe s h = ground (arith, h)

new_builder-Sourced : (prof : Profile) (d : Deployment) → Sourced (new_builder prof d)
unfolding new_builder valid_source contains all_of to_lower str_eq
new_builder-Sourced document d = (
  (refl, tt),
  (refl, tt),
  (refl, tt),
  (refl, tt),
  (refl, (refl, tt)),
  (refl, tt),
  (refl, tt),
  λ e. absurd (cc e),
)
new_builder-Sourced api d = (tt, tt, tt, tt, tt, tt, tt, λ e. absurd (cc e))

words : (l : List Bytes) → AllAccepted l → All Word l
words [] h = tt
words (s ∷ l) h = (Accepted-Word s h.0, words l h.1)

safe : (l : List Bytes) → AllAccepted l → All (λ s. contains unsafe_keywords (to_lower s) ≡ false) l
safe [] h = tt
safe (s ∷ l) h = (Accepted-safe s h.0, safe l h.1)

-- A directive whose name is a word and whose sources were accepted; the one exception is the attribute
-- directive.
abbrev Sound : Directive → Type 0
Sound d =
    Word d.name
    × (((d.name ≡ codes "style-src-attr") × (d.sources ≡ codes "'unsafe-inline'" ∷ []))
        ⊎ AllAccepted d.sources)

All-append : {A : Type 0} (P : A → Type 0) (l m : List A) → All P l → All P m → All P (l ++ m)
All-append P [] m h k = k
All-append P (x ∷ l) m h k = (h.0, All-append P l m h.1 k)

report-Sound :
    (uri : Bytes)
    → (is_empty uri ≡ false → Accepted uri)
    → All Sound
        (if is_empty uri then [] else record { name = codes "report-uri"; sources = uri ∷ [] } ∷ [])
unfolding all_of
report-Sound [] h = tt
report-Sound (c ∷ uri) h = (((refl, refl), inr (h refl, tt)), tt)

attr-Sound :
    (b : Bool)
    → All Sound (
        if b
        then record { name = codes "style-src-attr"; sources = codes "'unsafe-inline'" ∷ [] } ∷ []
        else [])
unfolding all_of
attr-Sound true = (((refl, refl), inl (refl, refl)), tt)
attr-Sound false = tt

none-Accepted : AllAccepted (codes "'none'" ∷ [])
unfolding valid_source contains all_of to_lower str_eq
none-Accepted = (refl, tt)

accepted : (d : Directive) → AllAccepted d.sources → Word d.name → Sound d
accepted d h k = (k, inr h)

profile-Sound : (prof : Profile) (b : Builder) → Sourced b → All Sound (profile_directives prof b)
unfolding profile_directives all_of
profile-Sound document b (c, f, a, fa, i, sc, st, u) = (
  accepted _ none-Accepted (refl, refl),
  (
    accepted _ none-Accepted (refl, refl),
    (
      accepted _ c (refl, refl),
      (
        accepted _ f (refl, refl),
        (
          accepted _ a (refl, refl),
          (
            accepted _ fa (refl, refl),
            (
              accepted _ i (refl, refl),
              (
                accepted _ none-Accepted (refl, refl),
                (
                  accepted _ sc (refl, refl),
                  (accepted _ st (refl, refl), attr-Sound b.inline_style_attr),
                ),
              ),
            ),
          ),
        ),
      ),
    ),
  ),
)
profile-Sound api b h = (
  accepted _ none-Accepted (refl, refl),
  (
    accepted _ none-Accepted (refl, refl),
    (
      accepted _ none-Accepted (refl, refl),
      (accepted _ none-Accepted (refl, refl), (accepted _ tt (refl, refl), tt)),
    ),
  ),
)

directives-Sound : (b : Builder) → Sourced b → All Sound (build_directives b)
unfolding build_directives
directives-Sound b h =
    All-append Sound (profile_directives b.profile b) _ (profile-Sound b.profile b h)
      (report-Sound b.report_uri h.7)

started :
    (prof : Profile) (b : Builder) (more : List Directive) → profile_directives prof b ++ more ≢ []
unfolding profile_directives
started document b more h = cc
started api b more h = cc

directives-nonempty : (b : Builder) → build_directives b ≢ []
unfolding build_directives profile_directives
directives-nonempty b = started b.profile b _

Sound-Plain : (ds : List Directive) → All Sound ds → All Plain ds
unfolding all_of
Sound-Plain [] h = tt
Sound-Plain (d ∷ ds) ((w, inl (n, s)), h) =
    ((w, subst (All Word) (sym s) ((refl, refl), tt)), Sound-Plain ds h)
Sound-Plain (d ∷ ds) ((w, inr a), h) = ((w, words d.sources a), Sound-Plain ds h)

digit-word : (v : ℕ) → source_byte (digit url v) ≡ true
unfolding digit
digit-word v = ground arith

all_of-append :
    (p : ℕ → Bool) (s t : Bytes) → all_of p s ≡ true → all_of p t ≡ true → all_of p (s ++ t) ≡ true
unfolding all_of
all_of-append p [] t h k = k
all_of-append p (c ∷ s) t h k = ground (arith, h, all_of-append p s t, k)

nonce-Word : (random : Bytes) → Word (nonce_source (new_nonce random))
unfolding new_nonce all_of
nonce-Word random = (
  refl,
  all_of-append source_byte (codes "'nonce-") (encode url random ++ codes "'") refl (
      all_of-append source_byte (encode url random) (codes "'")
        (all_of-encode url source_byte digit-word random) refl),
)

nonce-Plain :
    (random : Bytes) (ds : List Directive)
    → All Plain ds
    → All Plain (map (with_nonce (new_nonce random)) ds)
unfolding with_nonce
nonce-Plain random [] h = tt
nonce-Plain random (d ∷ ds) h = (
  if-intro Plain (str_eq d.name script_src)
      (record { name = d.name; sources = d.sources ++ nonce_source (new_nonce random) ∷ [] }) d
      (λ e. (h.0.0, All-append Word d.sources _ h.0.1 (nonce-Word random, tt))) λ e. h.0,
  nonce-Plain random ds h.1,
)

map-nonempty : {A B : Type 0} (f : A → B) (l : List A) → l ≢ [] → map f l ≢ []
map-nonempty f [] n h = n refl
map-nonempty f (x ∷ l) n h = cc

safe_directives :
    (ds : List Directive)
    → All Sound ds
    → All
        (λ (x : Directive).
          (x.name ≡ codes "style-src-attr")
          ⊎ All (λ (s : Bytes). contains unsafe_keywords (to_lower s) ≡ false) x.sources)
        ds
safe_directives [] h = tt
safe_directives (x ∷ ds) ((w, inl (n, s)), h) = (inl n, safe_directives ds h)
safe_directives (x ∷ ds) ((w, inr a), h) = (inr (safe x.sources a), safe_directives ds h)

policy-Sound :
    (prof : Profile) (d : Deployment) (opts : List (Option PolicyOption)) (p : Policy)
    → new_policy prof d opts ≡ ok p
    → All Sound p.directives × (p.directives ≢ []) × (p.csp_no_nonce ≡ render p.directives)
unfolding built_policy
policy-Sound prof d opts p e =
    let b = apply_options opts (new_builder prof d) in
    let sourced = apply_options-Sourced opts (new_builder prof d) (new_builder-Sourced prof d) in
    subst
      (λ (q : Policy).
        All Sound q.directives × (q.directives ≢ []) × (q.csp_no_nonce ≡ render q.directives))
      (sym (new_policy-built prof d opts p e).0)
      (directives-Sound b sourced, directives-nonempty b, refl)

-- The Content-Security-Policy of an accepted policy, with and without a nonce, reads back as exactly its
-- directives in the order of rendering: no option can add a directive or a source by its text.
pub new_policy_reads_back :
    (prof : Profile) (d : Deployment) (opts : List (Option PolicyOption)) (p : Policy)
    (random : Bytes)
    → new_policy prof d opts ≡ ok p
    → (parse_csp p.csp_no_nonce ≡ sort_directives p.directives)
      × (parse_csp (render_with_nonce p.directives (new_nonce random))
          ≡ sort_directives (map (with_nonce (new_nonce random)) p.directives))
unfolding render_with_nonce
new_policy_reads_back prof d opts p random e =
    let (s, n, r) = policy-Sound prof d opts p e in
    let plain = Sound-Plain p.directives s in
    (
      ap parse_csp r ∙ parse_csp-render p.directives n plain,
      parse_csp-render _ (map-nonempty _ p.directives n) (nonce-Plain random p.directives plain),
    )

-- Whatever the options are, no directive of an accepted policy names an unsafe keyword or the wildcard,
-- in any case of letters, but for style-src-attr.
pub new_policy_safe :
    (prof : Profile) (d : Deployment) (opts : List (Option PolicyOption)) (p : Policy)
    → new_policy prof d opts ≡ ok p
    → All
        (λ (x : Directive).
          (x.name ≡ codes "style-src-attr")
          ⊎ All (λ (s : Bytes). contains unsafe_keywords (to_lower s) ≡ false) x.sources)
        p.directives
new_policy_safe prof d opts p e = safe_directives p.directives (policy-Sound prof d opts p e).0
