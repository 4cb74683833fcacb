-- ===== src/Secure/Options/Reasons.antt =====
-- Every waiver that an option leaves has a reason, and no option takes HSTS from a production policy or
-- gives it to another.
use nise_and_go.Common.{
  ℕ, ◌||◌, subst, ◌≡◌, refl, sym, ◌∙◌, ◌⊎◌, inl, inr, Bool, true, false, ◌||◌, not, List, [], ◌∷◌,
  ◌++◌, Option, none, some, arith, if-intro,
}
use nise_and_go.Common.Text.{all_of, str_eq_refl, str_eq-eq, str_eq, Bytes, is_empty, All, codes}
use nise_and_go.Common.Clock.{Duration}
use nise_and_go.Common.Int.{pos, ltb_ℤ, leb_ℤ}
use nise_and_go.Common.{subst}
use nise_and_go.Common.Text.{str_eq, str_eq-eq, str_eq_refl}
use nise_and_go.Common.Space.{trim_space}
use nise_and_go.Secure.Options.Waived.{report-cases}
use nise_and_go.Secure.Options.Honest.{permit-eq, report_to-eq}
use nise_and_go.Common.Result.{Result, ok, err}
use nise_and_go.Secure.Source.{document_only_option, SecureError, classify_report_uri, same_origin}
use nise_and_go.Secure.Directive.{allowlist, set_allowlist}
use nise_and_go.Secure.Builder.{
  Waiver, resource_same_origin, resource_cross_origin, resource_same_site, referrer_valid,
  production, Builder, fail, waive, on_document, add_sources, leaks_referrer_cross_origin,
  Deployment,
}
use nise_and_go.Secure.Options.{
  ReportForm, unknown_resource, reduced_to_nothing, reduced_in_development, private_referrer,
  default_resource, trim_space, nil_option, grant, unknown_referrer, external, pos, leb_ℤ,
  report_uri_local, join_text, PolicyOption, allow_report_only, with_report_uri,
  allow_external_report_uri, with_script_hashes, with_style_hashes, with_hsts_preload,
  with_referrer_policy, with_cross_origin_embedder_policy, allow_script_sources,
  allow_style_sources, allow_connect_sources, allow_image_sources, allow_font_sources,
  allow_frame_ancestors, allow_inline_style_attributes, allow_cross_origin_popups,
  allow_cross_origin_resources, allow_referrer_policy, allow_permission, allow_reduced_hsts,
  report_to, report_abroad, set_referrer, leak_referrer, set_embedder, share_resources,
  replace_ancestors, accepted_items, grants_new, permit, reduce_hsts, apply_option, apply_options,
  add_script_hashes, add_style_hashes, add_script_sources, add_style_sources, add_connect_sources,
  add_image_sources, add_font_sources, inline_style_attributes, suspend_csp, allow_popups,
}
use nise_and_go.Secure.Options.Sources.{on_document-intro}

abbrev pub Reasoned : List Waiver → Type 0
Reasoned ws = All (λ (w : Waiver). is_empty (trim_space w.reason) ≡ false) ws

Reasoned-snoc :
    (ws : List Waiver) (w : Waiver)
    → Reasoned ws
    → is_empty (trim_space w.reason) ≡ false
    → Reasoned (ws ++ w ∷ [])
Reasoned-snoc [] w h k = (k, tt)
Reasoned-snoc (x ∷ ws) w h k = (h.0, Reasoned-snoc ws w h.1 k)

-- An AllowReducedHSTS that is refused, or whose age is above a bound.
abbrev pub keeps_above : ℕ → PolicyOption → Bool
keeps_above least o = elim o [
  | allow_reduced_hsts reason age subdomains ↦ leb_ℤ age (pos 0) || not (leb_ℤ age (pos least))
  | _ ↦ true
]

abbrev pub given_above : ℕ → Option PolicyOption → Bool
given_above least none = true
given_above least (some o) = keeps_above least o

-- What every option keeps of a builder for the deployment `d`.
pub Held : ℕ → Deployment → Builder → Type 0
Held least d b =
    (b.deployment ≡ d)
    × (ltb_ℤ (pos least) b.hsts_max_age ≡ str_eq d production)
    × Reasoned b.waivers

-- A builder that differs in other fields only.
Held-same :
    (least : ℕ) (d : Deployment) (b x : Builder)
    → x.deployment ≡ b.deployment
    → x.hsts_max_age ≡ b.hsts_max_age
    → x.waivers ≡ b.waivers
    → Held least d b
    → Held least d x
unfolding Held
Held-same least d b x e f g (h, k, r) = (e ∙ h, rw f k, subst Reasoned (sym g) r)

failed :
    (least : ℕ) (d : Deployment) (b : Builder) (e : SecureError)
    → Held least d b
    → Held least d (fail b e)
unfolding Held
failed least d b e h = h

waived :
    (least : ℕ) (d : Deployment) (b : Builder) (control detail reason : Bytes)
    → Held least d b
    → Held least d (waive b control detail reason)
unfolding Held waive
waived least d b control detail reason (h, k, r) =
    if-intro
      (λ (x : Builder).
        (x.deployment ≡ d)
        × (ltb_ℤ (pos least) x.hsts_max_age ≡ str_eq d production)
        × Reasoned x.waivers)
      (is_empty (trim_space reason)) _ _ (λ e. (h, k, r)) λ e. (h, k, Reasoned-snoc b.waivers _ r e)

add_script_hashes-Held :
    (least : ℕ) (d : Deployment) (hashes : List Bytes) (b : Builder)
    → Held least d b
    → Held least d (add_script_hashes hashes b)
unfolding add_script_hashes Held
add_script_hashes-Held least d hashes b h = h

add_style_hashes-Held :
    (least : ℕ) (d : Deployment) (hashes : List Bytes) (b : Builder)
    → Held least d b
    → Held least d (add_style_hashes hashes b)
unfolding add_style_hashes Held
add_style_hashes-Held least d hashes b h = h

add_script_sources-Held :
    (least : ℕ) (d : Deployment) (reason : Bytes) (sources : List Bytes) (b : Builder)
    → Held least d b
    → Held least d (add_script_sources reason sources b)
unfolding add_script_sources Held
add_script_sources-Held least d reason sources b h = waived least d _ _ _ _ h

add_style_sources-Held :
    (least : ℕ) (d : Deployment) (reason : Bytes) (sources : List Bytes) (b : Builder)
    → Held least d b
    → Held least d (add_style_sources reason sources b)
unfolding add_style_sources Held
add_style_sources-Held least d reason sources b h = waived least d _ _ _ _ h

add_connect_sources-Held :
    (least : ℕ) (d : Deployment) (reason : Bytes) (sources : List Bytes) (b : Builder)
    → Held least d b
    → Held least d (add_connect_sources reason sources b)
unfolding add_connect_sources Held
add_connect_sources-Held least d reason sources b h = waived least d _ _ _ _ h

add_image_sources-Held :
    (least : ℕ) (d : Deployment) (reason : Bytes) (sources : List Bytes) (b : Builder)
    → Held least d b
    → Held least d (add_image_sources reason sources b)
unfolding add_image_sources Held
add_image_sources-Held least d reason sources b h = waived least d _ _ _ _ h

add_font_sources-Held :
    (least : ℕ) (d : Deployment) (reason : Bytes) (sources : List Bytes) (b : Builder)
    → Held least d b
    → Held least d (add_font_sources reason sources b)
unfolding add_font_sources Held
add_font_sources-Held least d reason sources b h = waived least d _ _ _ _ h

inline_style_attributes-Held :
    (least : ℕ) (d : Deployment) (reason : Bytes) (b : Builder)
    → Held least d b
    → Held least d (inline_style_attributes reason b)
unfolding inline_style_attributes Held
inline_style_attributes-Held least d reason b h = waived least d _ _ _ _ h

suspend_csp-Held :
    (least : ℕ) (d : Deployment) (reason : Bytes) (b : Builder)
    → Held least d b
    → Held least d (suspend_csp reason b)
unfolding suspend_csp Held
suspend_csp-Held least d reason b h = waived least d _ _ _ _ h

allow_popups-Held :
    (least : ℕ) (d : Deployment) (reason : Bytes) (b : Builder)
    → Held least d b
    → Held least d (allow_popups reason b)
unfolding allow_popups Held
allow_popups-Held least d reason b h = waived least d _ _ _ _ h

report_to-Held :
    (least : ℕ) (d : Deployment) (b : Builder) (uri : Bytes)
    → Held least d b
    → Held least d (report_to b uri)
report_to-Held least d b uri h = elim (report_to-eq b uri) [
  | inl (p, e) ↦ subst (Held least d) (sym e) (failed least d b p h)
  | inr (s, e) ↦
      subst (Held least d) (sym e)
        (Held-same least d b (record b { report_uri = uri }) refl refl refl h)
]

abroad :
    (b : Builder) (reason uri : Bytes) (r : Result SecureError ReportForm)
    → r ≡ ok external
    → let noted =
        record (waive b (codes "content-security-policy") (codes "report-uri " ++ uri) reason) {
          report_uri = uri;
        } in
      ◌≡◌ {A = Builder}
        (elim r [
          | err e ↦ fail b e
          | ok same_origin ↦ fail b (report_uri_local uri)
          | ok external ↦ noted
        ])
        noted
abroad b reason uri (err e) h = cc
abroad b reason uri (ok same_origin) h = cc
abroad b reason uri (ok external) h = refl

report_abroad-eq :
    (b : Builder) (reason uri : Bytes)
    → ((e : SecureError) × (report_abroad b reason uri ≡ fail b e))
      ⊎ (report_abroad b reason uri
          ≡ record (waive b (codes "content-security-policy") (codes "report-uri " ++ uri) reason) {
            report_uri = uri;
          })
unfolding report_abroad
report_abroad-eq b reason uri = elim (report-cases uri) [
  | inl (p, e) ↦ inl (p, rw (e, report_abroad) refl)
  | inr (inl e) ↦ inl (report_uri_local uri, rw (e, report_abroad) refl)
  | inr (inr e) ↦ inr (abroad b reason uri (classify_report_uri uri) e)
]

report_abroad-Held :
    (least : ℕ) (d : Deployment) (b : Builder) (reason uri : Bytes)
    → Held least d b
    → Held least d (report_abroad b reason uri)
report_abroad-Held least d b reason uri h = elim (report_abroad-eq b reason uri) [
  | inl (p, e) ↦ subst (Held least d) (sym e) (failed least d b p h)
  | inr e ↦
      let w =
        waived least d b (codes "content-security-policy") (codes "report-uri " ++ uri) reason h in
      subst (Held least d) (sym e) (Held-same least d _ _ refl refl refl w)
]

set_referrer-Held :
    (least : ℕ) (d : Deployment) (b : Builder) (p : Bytes)
    → Held least d b
    → Held least d (set_referrer b p)
unfolding set_referrer Held
set_referrer-Held least d b p h = ground (arith, h)

leak_referrer-Held :
    (least : ℕ) (d : Deployment) (b : Builder) (reason p : Bytes)
    → Held least d b
    → Held least d (leak_referrer b reason p)
unfolding leak_referrer
leak_referrer-Held least d b reason p h =
    if-intro (Held least d) (not (referrer_valid p)) _ _
      (λ e. failed least d b (unknown_referrer p) h)
      λ e.
        if-intro (Held least d) (not (leaks_referrer_cross_origin p)) _ _
          (λ e. failed least d b (private_referrer p) h)
          λ e.
            waived least d (record b { referrer = p }) (codes "referrer-policy") p reason
              (Held-same least d b (record b { referrer = p }) refl refl refl h)

set_embedder-Held :
    (least : ℕ) (d : Deployment) (b : Builder) (p : Bytes)
    → Held least d b
    → Held least d (set_embedder b p)
unfolding set_embedder Held
set_embedder-Held least d b p h = ground (arith, h)

share_resources-Held :
    (least : ℕ) (d : Deployment) (b : Builder) (reason p : Bytes)
    → Held least d b
    → Held least d (share_resources b reason p)
unfolding share_resources
share_resources-Held least d b reason p h =
    if-intro (Held least d) (str_eq p resource_same_site || str_eq p resource_cross_origin) _ _
      (λ e.
        waived least d (record b { corp = p }) (codes "cross-origin-resource-policy") p reason
          (Held-same least d b (record b { corp = p }) refl refl refl h))
      λ e.
        if-intro (Held least d) (str_eq p resource_same_origin) _ _
          (λ e. failed least d b (default_resource p) h)
          λ e. failed least d b (unknown_resource p) h

replace_ancestors-Held :
    (least : ℕ) (d : Deployment) (reason : Bytes) (sources : List Bytes) (b : Builder)
    → Held least d b
    → Held least d (replace_ancestors b reason sources)
unfolding replace_ancestors
replace_ancestors-Held least d reason sources b h =
    let r = add_sources [] sources b.errs in
    let replaced = record b { errs = r.1; frame_ancestors = r.0 } in
    if-intro (Held least d) (is_empty r.0) (record b { errs = r.1 })
      (waive replaced (codes "frame-ancestors") (join_text (codes " ") r.0) reason)
      (λ e. Held-same least d b (record b { errs = r.1 }) refl refl refl h)
      λ e.
        waived least d replaced (codes "frame-ancestors") (join_text (codes " ") r.0) reason
          (Held-same least d b replaced refl refl refl h)

grant-Held :
    (least : ℕ) (d : Deployment) (b : Builder) (reason feature : Bytes) (list : List Bytes)
    → Held least d b
    → Held least d (grant b reason feature list)
unfolding grant
grant-Held least d b reason feature list h =
    let r = accepted_items list [] b.errs in
    let changed = record b { permissions = set_allowlist b.permissions feature r.0; errs = r.1 } in
    let detail = feature ++ (codes "=(" ++ (join_text (codes " ") r.0 ++ codes ")")) in
    let kept = Held-same least d b changed refl refl refl h in
    if-intro (Held least d) (grants_new (allowlist b.permissions feature) r.0)
      (waive changed (codes "permissions-policy") detail reason) changed
      (λ e. waived least d changed (codes "permissions-policy") detail reason kept) λ e. kept

permit-Held :
    (least : ℕ) (d : Deployment) (b : Builder) (reason feature : Bytes) (list : List Bytes)
    → Held least d b
    → Held least d (permit b reason feature list)
permit-Held least d b reason feature list h = elim (permit-eq b reason feature list) [
  | inl (p, e) ↦ subst (Held least d) (sym e) (failed least d b p h)
  | inr e ↦ subst (Held least d) (sym e) (grant-Held least d b reason feature list h)
]

reduced :
    (least : ℕ) (d : Deployment) (b : Builder) (max_age : Duration) (subdomains : Bool)
    → str_eq b.deployment production ≡ true
    → leb_ℤ max_age (pos least) ≡ false
    → Held least d b
    → Held least d (record b { hsts_max_age = max_age; hsts_include_subdomains = subdomains })
unfolding Held
reduced least d b max_age subdomains p m (h, k, r) =
    (h, ground (arith, p, m, h, str_eq-eq b.deployment production, str_eq_refl production), r)

reduce_hsts-Held :
    (least : ℕ) (d : Deployment) (b : Builder) (reason : Bytes) (max_age : Duration)
    (subdomains : Bool)
    → (leb_ℤ max_age (pos 0) || not (leb_ℤ max_age (pos least))) ≡ true
    → Held least d b
    → Held least d (reduce_hsts b reason max_age subdomains)
unfolding reduce_hsts
reduce_hsts-Held least d b reason max_age subdomains long h =
    if-intro (Held least d) (not (str_eq b.deployment production)) _ _
      (λ e. failed least d b reduced_in_development h)
      λ p.
        if-intro (Held least d) (leb_ℤ max_age (pos 0)) _ _
          (λ e. failed least d b reduced_to_nothing h)
          λ m.
            waived least d _ _ _ _
              (reduced least d b max_age subdomains (ground (arith, p)) (ground (arith, m, long)) h)

Held-document :
    (least : ℕ) (d : Deployment) (b : Builder) (option : Bytes) (change : Builder → Builder)
    → Held least d b
    → Held least d (change b)
    → Held least d (on_document b option change)
Held-document least d b option change h k =
    on_document-intro (Held least d) b option change k
      (failed least d b (document_only_option option) h)

apply_option-Held :
    (least : ℕ) (d : Deployment) (o : PolicyOption) (b : Builder)
    → Held least d b
    → keeps_above least o ≡ true
    → Held least d (apply_option o b)
unfolding apply_option
apply_option-Held least d (allow_report_only reason) b h l = suspend_csp-Held least d reason b h
apply_option-Held least d (with_report_uri uri) b h l = report_to-Held least d b uri h
apply_option-Held least d (allow_external_report_uri reason uri) b h l =
    report_abroad-Held least d b reason uri h
apply_option-Held least d with_hsts_preload b h l =
    Held-same least d b (record b { hsts_preload = true }) refl refl refl h
apply_option-Held least d (with_referrer_policy p) b h l = set_referrer-Held least d b p h
apply_option-Held least d (with_cross_origin_embedder_policy p) b h l =
    set_embedder-Held least d b p h
apply_option-Held least d (with_script_hashes hashes) b h l =
    Held-document least d b (codes "WithScriptHashes") (add_script_hashes hashes) h
      (add_script_hashes-Held least d hashes b h)
apply_option-Held least d (with_style_hashes hashes) b h l =
    Held-document least d b (codes "WithStyleHashes") (add_style_hashes hashes) h
      (add_style_hashes-Held least d hashes b h)
apply_option-Held least d (allow_script_sources reason sources) b h l =
    Held-document least d b (codes "AllowScriptSources") (add_script_sources reason sources) h
      (add_script_sources-Held least d reason sources b h)
apply_option-Held least d (allow_style_sources reason sources) b h l =
    Held-document least d b (codes "AllowStyleSources") (add_style_sources reason sources) h
      (add_style_sources-Held least d reason sources b h)
apply_option-Held least d (allow_connect_sources reason sources) b h l =
    Held-document least d b (codes "AllowConnectSources") (add_connect_sources reason sources) h
      (add_connect_sources-Held least d reason sources b h)
apply_option-Held least d (allow_image_sources reason sources) b h l =
    Held-document least d b (codes "AllowImageSources") (add_image_sources reason sources) h
      (add_image_sources-Held least d reason sources b h)
apply_option-Held least d (allow_font_sources reason sources) b h l =
    Held-document least d b (codes "AllowFontSources") (add_font_sources reason sources) h
      (add_font_sources-Held least d reason sources b h)
apply_option-Held least d (allow_frame_ancestors reason sources) b h l =
    Held-document least d b (codes "AllowFrameAncestors")
      (λ (b : Builder). replace_ancestors b reason sources) h
      (replace_ancestors-Held least d reason sources b h)
apply_option-Held least d (allow_inline_style_attributes reason) b h l =
    Held-document least d b (codes "AllowInlineStyleAttributes") (inline_style_attributes reason) h
      (inline_style_attributes-Held least d reason b h)
apply_option-Held least d (allow_cross_origin_popups reason) b h l =
    allow_popups-Held least d reason b h
apply_option-Held least d (allow_cross_origin_resources reason p) b h l =
    share_resources-Held least d b reason p h
apply_option-Held least d (allow_referrer_policy reason p) b h l =
    leak_referrer-Held least d b reason p h
apply_option-Held least d (allow_permission reason feature list) b h l =
    permit-Held least d b reason feature list h
apply_option-Held least d (allow_reduced_hsts reason max_age subdomains) b h l =
    reduce_hsts-Held least d b reason max_age subdomains l h

apply_options-Held :
    (least : ℕ) (d : Deployment) (opts : List (Option PolicyOption)) (b : Builder)
    → Held least d b
    → all_of (given_above least) opts ≡ true
    → Held least d (apply_options opts b)
unfolding apply_options all_of
apply_options-Held least d [] b h a = h
apply_options-Held least d (none ∷ opts) b h a =
    apply_options-Held least d opts (fail b nil_option) (failed least d b nil_option h)
      (ground (arith, a))
apply_options-Held least d (some opt ∷ opts) b h a =
    apply_options-Held least d opts (apply_option opt b)
      (apply_option-Held least d opt b h (ground (arith, a))) (ground (arith, a))

-- What holds of the builder after any options.
pub apply_options-kept :
    (least : ℕ) (d : Deployment) (opts : List (Option PolicyOption)) (b : Builder)
    → b.deployment ≡ d
    → ltb_ℤ (pos least) b.hsts_max_age ≡ str_eq d production
    → b.waivers ≡ []
    → all_of (given_above least) opts ≡ true
    → let x = apply_options opts b in
      (x.deployment ≡ d)
      × (ltb_ℤ (pos least) x.hsts_max_age ≡ str_eq d production)
      × Reasoned x.waivers
unfolding Held
apply_options-kept least d opts b e h w a =
    apply_options-Held least d opts b (e, h, subst Reasoned (sym w) tt) a
