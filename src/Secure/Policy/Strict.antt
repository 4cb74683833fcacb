-- ===== src/Secure/Policy/Strict.antt =====
-- A policy that has no waivers is not weakened, and every waiver has a reason.
use nise_and_go.Common.{
  none, some, ℕ, ◌≡◌, refl, sym, ap, ◌∙◌, inl, inr, Bool, true, false, List, [], ◌∷◌, ◌++◌, Option,
  arith, if◌then◌else◌, if-intro, subst,
}
use nise_and_go.Common.Text.{all_of, Bytes, codes, str_eq, str_eq-eq, is_empty, All}
use nise_and_go.Common.Affix.{decimal, has_prefix}
use nise_and_go.Common.Keys.{contains}
use nise_and_go.Common.Result.{ok}
use nise_and_go.Secure.Source.{classify_report_uri, same_origin}
use nise_and_go.Secure.Directive.{Directive, Features, allowlist, names, render_permissions}
use nise_and_go.Secure.Builder.{
  Deployment, production, Profile, document, api, Builder, leaks_referrer_cross_origin,
}
use nise_and_go.Secure.Options.{PolicyOption, apply_options, allow_reduced_hsts}
use nise_and_go.Secure.Options.Waived.{clear}
use nise_and_go.Secure.Options.Honest.{Kept, Honest, HashOr, Within, Fixed, apply_options-Honest}
use nise_and_go.Secure.Options.Reasons.{Reasoned, keeps_above, given_above, apply_options-kept}
use nise_and_go.Secure.Span.{whole_seconds}
use nise_and_go.Common.Int.{pos, ltb_ℤ}
use nise_and_go.Secure.Policy.{
  Duration, default_hsts_max_age, Policy, new_policy, built_policy, build_directives,
  profile_directives, new_builder, build_hsts, build_frame_option, self_source,
}
use nise_and_go.Secure.Policy.Defaults.{
  default_csp, report_directive, Inline, self_allowed, guarded_features, default_permissions-Within,
}
use nise_and_go.Secure.Policy.Built.{new_policy-built}

pub record Unweakened (prof : Profile) (d : Deployment) (p : Policy) : Type 0 where
  pub enforced : p.report_only ≡ false
  pub sources :
      (scripts : List Bytes) × (styles : List Bytes) × (uri : Bytes) × (p.directives
        ≡ default_csp prof scripts styles ++ report_directive uri)
      × All Inline scripts
      × All Inline styles
      × (is_empty uri ≡ false → classify_report_uri uri ≡ ok same_origin)
  pub transport :
      d ≡ production → has_prefix p.hsts (codes "max-age=31536000; includeSubDomains") ≡ true
  pub referrer : leaks_referrer_cross_origin p.referrer ≡ false
  pub opener : p.coop ≡ codes "same-origin"
  pub resources : p.corp ≡ codes "same-origin"
  pub framing : p.frame_option ≡ codes "DENY"
  pub capabilities :
      (fs : Features) × (p.permissions ≡ render_permissions fs)
      × ((f : Bytes) → Within (allowlist fs f) (self_allowed f))
      × ((f : Bytes) → contains guarded_features f ≡ true → contains (names fs) f ≡ true)

self_included :
    (prof : Profile) (d : Deployment)
    → All (HashOr (new_builder prof d).script_src) (new_builder prof d).script_src
unfolding new_builder contains str_eq
self_included document d = (inl refl, tt)
self_included api d = tt

self_styled :
    (prof : Profile) (d : Deployment)
    → All (HashOr (new_builder prof d).style_src) (new_builder prof d).style_src
unfolding new_builder contains str_eq
self_styled document d = (inl refl, tt)
self_styled api d = tt

new_builder-Honest :
    (prof : Profile) (d : Deployment) → Honest (new_builder prof d) (new_builder prof d)
unfolding new_builder leaks_referrer_cross_origin str_eq
new_builder-Honest prof d c = (
  refl,
  self_included prof d,
  self_styled prof d,
  λ e. absurd (cc e),
  refl,
  record { within = λ f x m. m; listed = λ f m. m },
)

Inline-sources :
    (prof : Profile) (d : Deployment) (l : List Bytes)
    → All (HashOr (new_builder prof d).script_src) l
    → All Inline l
unfolding new_builder contains
Inline-sources prof d [] h = tt
Inline-sources prof d (s ∷ l) (inr k, h) = (inr k, Inline-sources prof d l h)
Inline-sources document d (s ∷ l) (inl e, h) =
    (inl (sym (str_eq-eq self_source s (ground (arith, e)))), Inline-sources document d l h)
Inline-sources api d (s ∷ l) (inl e, h) = cc e

Inline-styles :
    (prof : Profile) (d : Deployment) (l : List Bytes)
    → All (HashOr (new_builder prof d).style_src) l
    → All Inline l
unfolding new_builder contains
Inline-styles prof d [] h = tt
Inline-styles prof d (s ∷ l) (inr k, h) = (inr k, Inline-styles prof d l h)
Inline-styles document d (s ∷ l) (inl e, h) =
    (inl (sym (str_eq-eq self_source s (ground (arith, e)))), Inline-styles document d l h)
Inline-styles api d (s ∷ l) (inl e, h) = cc e

Kept-profile :
    (prof : Profile) (d : Deployment) (b : Builder) → Kept (new_builder prof d) b → b.profile ≡ prof
unfolding new_builder
Kept-profile prof d b h = ap (λ (x : Fixed). x.profile) h.0

profile-default :
    (prof : Profile) (d : Deployment) (b : Builder)
    → Kept (new_builder prof d) b
    → profile_directives prof b ≡ default_csp prof b.script_src b.style_src
unfolding profile_directives new_builder
profile-default document d b h =
    rw
      (
        ap (λ (x : Fixed). x.connect_src) h.0,
        ap (λ (x : Fixed). x.font_src) h.0,
        ap (λ (x : Fixed). x.form_action) h.0,
        ap (λ (x : Fixed). x.frame_ancestors) h.0,
        ap (λ (x : Fixed). x.img_src) h.0,
        ap (λ (x : Fixed). x.inline_style_attr) h.0,
      )
      refl
profile-default api d b h = refl

directives-default :
    (prof : Profile) (d : Deployment) (b : Builder)
    → Kept (new_builder prof d) b
    → build_directives b
      ≡ default_csp prof b.script_src b.style_src ++ report_directive b.report_uri
unfolding build_directives
directives-default prof d b h =
    ap (λ (l : List Directive). l ++ report_directive b.report_uri)
      (ap (λ (q : Profile). profile_directives q b) (Kept-profile prof d b h)
        ∙ profile-default prof d b h)

framing-Kept :
    (prof : Profile) (d : Deployment) (b : Builder)
    → Kept (new_builder prof d) b
    → build_frame_option b ≡ codes "DENY"
unfolding build_frame_option new_builder str_eq
framing-Kept document d b h =
    rw
      (
        ap (λ (x : Fixed). x.profile) h.0,
        ap (λ (x : Fixed). x.frame_ancestors) h.0,
        build_frame_option,
      )
      refl
framing-Kept api d b h = rw (ap (λ (x : Fixed). x.profile) h.0, build_frame_option) refl

-- The header of a full year with subdomains, whatever follows.
year :
    (max_age : Duration) (subdomains preload : Bool)
    → max_age ≡ default_hsts_max_age
    → subdomains ≡ true
    → has_prefix
        (codes "max-age="
          ++ (decimal (whole_seconds max_age)
              ++ ((if subdomains then codes "; includeSubDomains" else [])
                  ++ (if preload then codes "; preload" else []))))
        (codes "max-age=31536000; includeSubDomains")
      ≡ true
unfolding has_prefix whole_seconds decimal
year max_age subdomains preload a s = rw (a, s) refl

transport-Kept :
    (prof : Profile) (d : Deployment) (b : Builder)
    → Kept (new_builder prof d) b
    → d ≡ production
    → has_prefix (build_hsts b) (codes "max-age=31536000; includeSubDomains") ≡ true
unfolding build_hsts new_builder str_eq
transport-Kept prof d b h e =
    let age : b.hsts_max_age ≡ default_hsts_max_age =
      ap (λ (x : Fixed). x.hsts_max_age) h.0 ∙ rw e refl in
    let subdomains : b.hsts_include_subdomains ≡ true =
      ap (λ (x : Fixed). x.hsts_include_subdomains) h.0 ∙ rw e refl in
    if-intro (λ (x : Bytes). has_prefix x (codes "max-age=31536000; includeSubDomains") ≡ true)
      (ltb_ℤ (pos 0) b.hsts_max_age) _ _
      (λ t. year b.hsts_max_age b.hsts_include_subdomains b.hsts_preload age subdomains)
      λ f. absurd (ground (arith, f, age))

built-Unweakened :
    (prof : Profile) (d : Deployment) (b : Builder)
    → Kept (new_builder prof d) b
    → Unweakened prof d (built_policy b)
unfolding built_policy new_builder
built-Unweakened prof d b h = record {
  enforced = ap (λ (x : Fixed). x.report_only) h.0;
  sources = (
    b.script_src,
    b.style_src,
    b.report_uri,
    directives-default prof d b h,
    Inline-sources prof d b.script_src h.1,
    Inline-styles prof d b.style_src h.2,
    h.3,
  );
  transport = transport-Kept prof d b h;
  referrer = h.4;
  opener = ap (λ (x : Fixed). x.coop) h.0;
  resources = ap (λ (x : Fixed). x.corp) h.0;
  framing = framing-Kept prof d b h;
  capabilities = (
    b.permissions,
    refl,
    λ f x m. default_permissions-Within f x (h.5.within f x m),
    λ f m. h.5.listed f m,
  );
}

-- An accepted policy that reports no waivers has every protection of the default policy, whatever options
-- it was built with: it is enforced; its directives are those of the profile's default policy, each with
-- its default sources, but for hashes in script-src and style-src and a report-uri of this application;
-- a production policy asks for a full year of HTTPS with subdomains; the referrer does not leave the
-- origin, and the policies on opener, resources and framing are the default ones; and each of the 22
-- guarded features is listed, granted to nobody, or to this origin in the case of fullscreen.
pub no_waivers-Unweakened :
    (prof : Profile) (d : Deployment) (opts : List (Option PolicyOption)) (p : Policy)
    → new_policy prof d opts ≡ ok p
    → p.waivers ≡ []
    → Unweakened prof d p
unfolding built_policy clear
no_waivers-Unweakened prof d opts p e w =
    let b = apply_options opts (new_builder prof d) in
    let (same, clean, preload, deployed) = new_policy-built prof d opts p e in
    let none_waived : b.waivers ≡ [] = ap (λ (q : Policy). q.waivers) (sym same) ∙ w in
    subst (Unweakened prof d) (sym same) (
      built-Unweakened prof d b (
        apply_options-Honest (new_builder prof d) opts (new_builder prof d)
          (new_builder-Honest prof d) (ground (arith, none_waived, clean))))

aged :
    (least : ℕ) (t : Bool)
    → ltb_ℤ (pos least) default_hsts_max_age ≡ true
    → ltb_ℤ (pos least) (if t then default_hsts_max_age else pos 0) ≡ t
aged least true h = h
aged least false h = ground arith

started_hsts :
    (least : ℕ) (prof : Profile) (d : Deployment)
    → ltb_ℤ (pos least) default_hsts_max_age ≡ true
    → ltb_ℤ (pos least) (new_builder prof d).hsts_max_age ≡ str_eq d production
unfolding new_builder
started_hsts least prof d h = aged least (str_eq d production) h

pub built_kept :
    (least : ℕ) (prof : Profile) (d : Deployment) (opts : List (Option PolicyOption))
    → ltb_ℤ (pos least) default_hsts_max_age ≡ true
    → all_of (given_above least) opts ≡ true
    → let x = apply_options opts (new_builder prof d) in
      (x.deployment ≡ d)
      × (ltb_ℤ (pos least) x.hsts_max_age ≡ str_eq d production)
      × Reasoned x.waivers
unfolding new_builder
built_kept least prof d opts h a =
    apply_options-kept least d opts (new_builder prof d) refl (started_hsts least prof d h) refl a

above_nothing : (o : PolicyOption) → keeps_above 0 o ≡ true
above_nothing (allow_reduced_hsts reason age subdomains) = ground arith
above_nothing o = refl

pub all_above_nothing : (opts : List (Option PolicyOption)) → all_of (given_above 0) opts ≡ true
unfolding all_of
all_above_nothing [] = refl
all_above_nothing (none ∷ opts) = all_above_nothing opts
all_above_nothing (some o ∷ opts) = rw (above_nothing o) (all_above_nothing opts)

-- Every waiver of an accepted policy gives a reason that is more than white space.
pub new_policy-Reasoned :
    (prof : Profile) (d : Deployment) (opts : List (Option PolicyOption)) (p : Policy)
    → new_policy prof d opts ≡ ok p
    → Reasoned p.waivers
unfolding built_policy
new_policy-Reasoned prof d opts p e =
    subst (λ (q : Policy). Reasoned q.waivers) (sym (new_policy-built prof d opts p e).0)
      (built_kept 0 prof d opts refl (all_above_nothing opts)).2
