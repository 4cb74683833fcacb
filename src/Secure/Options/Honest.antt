-- ===== src/Secure/Options/Honest.antt =====
-- A builder without waivers and errors has kept every protection.
use nise_and_go.Common.{
  Bool-cases, subst, ◌≡◌, refl, sym, ◌⊎◌, inl, inr, Bool, true, false, ◌||◌, not, List, [], ◌∷◌,
  ◌++◌, Option, none, some, arith, if◌then◌else◌, if-intro,
}
use nise_and_go.Common.Text.{
  is_empty-snoc, str_eq_refl, str_eq-eq, str_eq, Bytes, is_empty, All, codes,
}
use nise_and_go.Common.Clock.{Duration}
use nise_and_go.Common.Result.{Result, ok, err, Result-cases}
use nise_and_go.Common.Keys.{contains}
use nise_and_go.Secure.Source.{
  document_only_option, SecureError, normalize_hash, classify_report_uri, same_origin,
}
use nise_and_go.Secure.Source.Hash.{normalize_hash-IsHash, IsHash}
use nise_and_go.Secure.Directive.{Features, allowlist, set_allowlist, names}
use nise_and_go.Secure.Builder.{
  embedder_credentialless, embedder_require_corp, referrer_valid, Builder, Profile, fail, waive,
  on_document, leaks_referrer_cross_origin, Deployment, ResourcePolicy,
}
use nise_and_go.Secure.Options.{
  valid_permission_feature, permission_reason, trim_space, nil_option, grant, unknown_embedder,
  leaking_referrer, report_uri_external, unknown_referrer, valid_permission_allowlist_item,
  join_text, PolicyOption, allow_report_only, with_report_uri, allow_external_report_uri,
  with_script_hashes, with_style_hashes, with_hsts_preload, with_referrer_policy,
  with_cross_origin_embedder_policy, allow_script_sources, allow_style_sources,
  allow_connect_sources, allow_image_sources, allow_font_sources, allow_frame_ancestors,
  allow_inline_style_attributes, allow_cross_origin_popups, allow_cross_origin_resources,
  allow_referrer_policy, allow_permission, allow_reduced_hsts, add_hashes, report_to, set_referrer,
  set_embedder, replace_ancestors, accepted_items, grants_new, permit, apply_option, apply_options,
  add_script_hashes, add_style_hashes, add_script_sources, add_style_sources, add_connect_sources,
  add_image_sources, add_font_sources, inline_style_attributes,
}
use nise_and_go.Secure.Options.Sources.{on_document-intro}
use nise_and_go.Secure.Options.Waived.{
  reduce_hsts-clear, leak_referrer-clear, share_resources-clear, allow_popups-clear,
  inline_style_attributes-clear, replace_ancestors-clear, add_font_sources-clear,
  add_image_sources-clear, add_connect_sources-clear, add_style_sources-clear,
  add_script_sources-clear, report_abroad-clear, suspend_csp-clear, waive-clear, fail-clear,
  report-cases, clear,
}

-- A feature's items are among those of another listing.
abbrev pub Within : List Bytes → List Bytes → Type 0
Within items allowed = (x : Bytes) → contains items x ≡ true → contains allowed x ≡ true

-- No feature is granted more than another listing grants it, and none that the other names is left out.
pub record Capable (fs allowed : Features) : Type 0 where
  pub within : (f : Bytes) → Within (allowlist fs f) (allowlist allowed f)
  pub listed : (f : Bytes) → contains (names allowed) f ≡ true → contains (names fs) f ≡ true

abbrev pub HashOr : List Bytes → Bytes → Type 0
HashOr l s = (contains l s ≡ true) ⊎ IsHash s

-- What only an option that weakens can change.
pub record Fixed : Type 0 where
  pub deployment : Deployment
  pub profile : Profile
  pub connect_src : List Bytes
  pub font_src : List Bytes
  pub form_action : List Bytes
  pub frame_ancestors : List Bytes
  pub img_src : List Bytes
  pub inline_style_attr : Bool
  pub report_only : Bool
  pub hsts_max_age : Duration
  pub hsts_include_subdomains : Bool
  pub coop : Bytes
  pub corp : ResourcePolicy

abbrev pub fixed : Builder → Fixed
fixed b = record {
  deployment = b.deployment;
  profile = b.profile;
  connect_src = b.connect_src;
  font_src = b.font_src;
  form_action = b.form_action;
  frame_ancestors = b.frame_ancestors;
  img_src = b.img_src;
  inline_style_attr = b.inline_style_attr;
  report_only = b.report_only;
  hsts_max_age = b.hsts_max_age;
  hsts_include_subdomains = b.hsts_include_subdomains;
  coop = b.coop;
  corp = b.corp;
}

-- What a builder without waivers has in common with the one that it started as.
abbrev pub Kept : Builder → Builder → Type 0
Kept b0 b =
    (fixed b ≡ fixed b0)
    × All (HashOr b0.script_src) b.script_src
    × All (HashOr b0.style_src) b.style_src
    × (is_empty b.report_uri ≡ false → classify_report_uri b.report_uri ≡ ok same_origin)
    × (leaks_referrer_cross_origin b.referrer ≡ false)
    × Capable b.permissions b0.permissions

abbrev pub Honest : Builder → Builder → Type 0
Honest b0 b = clear b ≡ true → Kept b0 b

weakened : (b0 b : Builder) → clear b ≡ false → Honest b0 b
weakened b0 b h c = absurd (cc (h, c))

failed : (b0 b : Builder) (e : SecureError) → Honest b0 (fail b e)
failed b0 b e = weakened b0 (fail b e) (fail-clear b e)

set_referrer-Honest : (b0 b : Builder) (p : Bytes) → Honest b0 b → Honest b0 (set_referrer b p)
unfolding set_referrer clear
set_referrer-Honest b0 b p h =
    if-intro (Honest b0) (not (referrer_valid p)) (fail b (unknown_referrer p)) _
      (λ e. failed b0 b (unknown_referrer p))
      λ e.
        if-intro (Honest b0) (leaks_referrer_cross_origin p) (fail b (leaking_referrer p))
          (record b { referrer = p }) (λ e. failed b0 b (leaking_referrer p))
          λ leak c. let (f, s, t, u, r, m) = h c in (f, s, t, u, leak, m)

set_embedder-Honest : (b0 b : Builder) (p : Bytes) → Honest b0 b → Honest b0 (set_embedder b p)
unfolding set_embedder clear
set_embedder-Honest b0 b p h =
    if-intro (Honest b0) (str_eq p embedder_require_corp || str_eq p embedder_credentialless)
      (record b { coep = p }) (fail b (unknown_embedder p)) (λ e. h)
      λ e. failed b0 b (unknown_embedder p)

-- What `WithReportURI` does on each answer.
pub report_to-eq :
    (b : Builder) (uri : Bytes)
    → ((e : SecureError) × (report_to b uri ≡ fail b e))
      ⊎ ((classify_report_uri uri ≡ ok same_origin)
          × (report_to b uri ≡ record b { report_uri = uri }))
unfolding report_to
report_to-eq b uri = elim (report-cases uri) [
  | inl (p, e) ↦ inl (p, rw (e, report_to) refl)
  | inr (inl e) ↦ inr (e, rw (e, report_to) refl)
  | inr (inr e) ↦ inl (report_uri_external uri, rw (e, report_to) refl)
]

located :
    (b0 b : Builder) (uri : Bytes)
    → classify_report_uri uri ≡ ok same_origin
    → Honest b0 b
    → Honest b0 (record b { report_uri = uri })
unfolding clear
located b0 b uri e h c = let (f, s, t, u, r, m) = h c in (f, s, t, λ n. e, r, m)

report_to-Honest : (b0 b : Builder) (uri : Bytes) → Honest b0 b → Honest b0 (report_to b uri)
report_to-Honest b0 b uri h = elim (report_to-eq b uri) [
  | inl (p, e) ↦ subst (Honest b0) (sym e) (failed b0 b p)
  | inr (s, e) ↦ subst (Honest b0) (sym e) (located b0 b uri s h)
]

HashOr-snoc :
    (l0 l : List Bytes) (s : Bytes) → All (HashOr l0) l → IsHash s → All (HashOr l0) (l ++ s ∷ [])
HashOr-snoc l0 [] s h k = (inr k, tt)
HashOr-snoc l0 (x ∷ l) s h k = (h.0, HashOr-snoc l0 l s h.1 k)

add_hashes-kept :
    (l0 hashes dst : List Bytes) (errs : List SecureError)
    → is_empty (add_hashes hashes dst errs).1 ≡ true
    → (is_empty errs ≡ true)
      × (All (HashOr l0) dst → All (HashOr l0) (add_hashes hashes dst errs).0)
unfolding add_hashes
add_hashes-kept l0 [] dst errs = λ h. (h, λ k. k)
add_hashes-kept l0 (raw ∷ hashes) dst errs = elim (Result-cases (normalize_hash raw)) [
  | inl (s, e) ↦
      rw (e, add_hashes)
        λ h.
          let (a, b) = add_hashes-kept l0 hashes (dst ++ s ∷ []) errs h in
          (a, λ k. b (HashOr-snoc l0 dst s k (normalize_hash-IsHash raw s e).0))
  | inr (p, e) ↦
      rw (e, add_hashes)
        λ h.
          let (a, b) = add_hashes-kept l0 hashes dst (errs ++ p ∷ []) h in
          absurd (cc (a, is_empty-snoc errs p))
]

add_script_hashes-Honest :
    (b0 b : Builder) (hashes : List Bytes) → Honest b0 b → Honest b0 (add_script_hashes hashes b)
unfolding add_script_hashes clear
add_script_hashes-Honest b0 b hashes h c =
    let (e, k) = add_hashes-kept b0.script_src hashes b.script_src b.errs (ground (arith, c)) in
    let (f, s, t, u, r, m) = h (ground (arith, c, e)) in (f, k s, t, u, r, m)

add_style_hashes-Honest :
    (b0 b : Builder) (hashes : List Bytes) → Honest b0 b → Honest b0 (add_style_hashes hashes b)
unfolding add_style_hashes clear
add_style_hashes-Honest b0 b hashes h c =
    let (e, k) = add_hashes-kept b0.style_src hashes b.style_src b.errs (ground (arith, c)) in
    let (f, s, t, u, r, m) = h (ground (arith, c, e)) in (f, s, k t, u, r, m)

accepted_items-clear :
    (list items : List Bytes) (errs : List SecureError)
    → is_empty (accepted_items list items errs).1 ≡ true
    → is_empty errs ≡ true
unfolding accepted_items
accepted_items-clear [] items errs = λ h. h
accepted_items-clear (item ∷ list) items errs =
    elim (Result-cases (valid_permission_allowlist_item item)) [
      | inl (u, e) ↦
          rw (e, accepted_items) λ h. accepted_items-clear list (items ++ item ∷ []) errs h
      | inr (p, e) ↦
          rw (e, accepted_items)
            λ h.
              absurd (cc (accepted_items-clear list items (errs ++ p ∷ []) h, is_empty-snoc errs p))
    ]

grants_new-Within :
    (already items : List Bytes) (x : Bytes)
    → grants_new already items ≡ false
    → contains items x ≡ true
    → contains already x ≡ true
unfolding grants_new contains
grants_new-Within already [] x h m = cc
grants_new-Within already (i ∷ items) x h m =
    ground (arith, h, m, str_eq-eq i x, grants_new-Within already items x)

allowlist-set :
    (fs : Features) (name f : Bytes) (items : List Bytes)
    → allowlist (set_allowlist fs name items) f ≡ (if str_eq name f then items else allowlist fs f)
unfolding allowlist set_allowlist
allowlist-set [] name f items = ground arith
allowlist-set ((g, old) ∷ fs) name f items = ground (
  arith,
  allowlist-set fs name f items,
  str_eq-eq g name,
  str_eq-eq name f,
  str_eq-eq g f,
  str_eq_refl name,
)

granted :
    (b0 b : Builder) (feature : Bytes) (items : List Bytes)
    → grants_new (allowlist b.permissions feature) items ≡ false
    → ((f : Bytes) → Within (allowlist b.permissions f) (allowlist b0.permissions f))
    → (f : Bytes)
    → Within (allowlist (set_allowlist b.permissions feature items) f) (allowlist b0.permissions f)
granted b0 b feature items n k f x m = k f x (
    ground (
      arith,
      m,
      allowlist-set b.permissions feature f items,
      str_eq-eq feature f,
      grants_new-Within (allowlist b.permissions feature) items x n,
    ))

set-listed :
    (fs : Features) (name : Bytes) (items : List Bytes) (f : Bytes)
    → contains (names fs) f ≡ true
    → contains (names (set_allowlist fs name items)) f ≡ true
unfolding contains set_allowlist
set-listed [] name items f h = cc
set-listed ((g, old) ∷ fs) name items f h =
    if-intro (λ (x : Features). contains (names x) f ≡ true) (str_eq g name) ((g, items) ∷ fs)
      ((g, old) ∷ set_allowlist fs name items) (λ e. h)
      λ e. elim (Bool-cases (str_eq g f)) [
        | inl q ↦ rw q refl
        | inr q ↦ rw q (set-listed fs name items f (rw q at h))
      ]

grant-Honest :
    (b0 b : Builder) (reason feature : Bytes) (list : List Bytes)
    → Honest b0 b
    → Honest b0 (grant b reason feature list)
unfolding grant clear
grant-Honest b0 b reason feature list h =
    let r = accepted_items list [] b.errs in
    let changed = record b { permissions = set_allowlist b.permissions feature r.0; errs = r.1 } in
    let detail = feature ++ (codes "=(" ++ (join_text (codes " ") r.0 ++ codes ")")) in
    let noted = waive changed (codes "permissions-policy") detail reason in
    if-intro (Honest b0) (grants_new (allowlist b.permissions feature) r.0) noted changed
      (λ e. weakened b0 noted (waive-clear changed (codes "permissions-policy") detail reason))
      λ e c.
        let (f, s, t, u, l, m) = h (ground (arith, c, accepted_items-clear list [] b.errs)) in
        (
          f,
          s,
          t,
          u,
          l,
          record {
            within = granted b0 b feature r.0 e m.within;
            listed = λ g n. set-listed b.permissions feature r.0 g (m.listed g n);
          },
        )

permit-branches :
    (b g : Builder) (t : Bool) (r : Result SecureError (Unit {0}))
    → let x = if t then fail b permission_reason else elim r [ err e ↦ fail b e | ok _ ↦ g ] in
      ((e : SecureError) × (x ≡ fail b e)) ⊎ (x ≡ g)
permit-branches b g true r = inl (permission_reason, refl)
permit-branches b g false (err e) = inl (e, refl)
permit-branches b g false (ok u) = inr refl

pub permit-eq :
    (b : Builder) (reason feature : Bytes) (list : List Bytes)
    → ((e : SecureError) × (permit b reason feature list ≡ fail b e))
      ⊎ (permit b reason feature list ≡ grant b reason feature list)
unfolding permit
permit-eq b reason feature list =
    permit-branches b (grant b reason feature list) (is_empty (trim_space reason))
      (valid_permission_feature feature)

permit-Honest :
    (b0 b : Builder) (reason feature : Bytes) (list : List Bytes)
    → Honest b0 b
    → Honest b0 (permit b reason feature list)
permit-Honest b0 b reason feature list h = elim (permit-eq b reason feature list) [
  | inl (p, e) ↦ subst (Honest b0) (sym e) (failed b0 b p)
  | inr e ↦ subst (Honest b0) (sym e) (grant-Honest b0 b reason feature list h)
]

preloaded : (b0 b : Builder) → Honest b0 b → Honest b0 (record b { hsts_preload = true })
unfolding clear
preloaded b0 b h = h

-- An option of a document policy that weakens.
document_weakened :
    (b0 b : Builder) (option : Bytes) (change : Builder → Builder)
    → clear (change b) ≡ false
    → Honest b0 (on_document b option change)
document_weakened b0 b option change h =
    on_document-intro (Honest b0) b option change (weakened b0 (change b) h)
      (failed b0 b (document_only_option option))

apply_option-Honest :
    (b0 : Builder) (o : PolicyOption) (b : Builder) → Honest b0 b → Honest b0 (apply_option o b)
unfolding apply_option
apply_option-Honest b0 (allow_report_only reason) b h = weakened b0 _ (suspend_csp-clear reason b)
apply_option-Honest b0 (with_report_uri uri) b h = report_to-Honest b0 b uri h
apply_option-Honest b0 (allow_external_report_uri reason uri) b h =
    weakened b0 _ (report_abroad-clear b reason uri)
apply_option-Honest b0 (with_script_hashes hashes) b h =
    on_document-intro (Honest b0) b (codes "WithScriptHashes") (add_script_hashes hashes)
      (add_script_hashes-Honest b0 b hashes h)
      (failed b0 b (document_only_option (codes "WithScriptHashes")))
apply_option-Honest b0 (with_style_hashes hashes) b h =
    on_document-intro (Honest b0) b (codes "WithStyleHashes") (add_style_hashes hashes)
      (add_style_hashes-Honest b0 b hashes h)
      (failed b0 b (document_only_option (codes "WithStyleHashes")))
apply_option-Honest b0 with_hsts_preload b h = preloaded b0 b h
apply_option-Honest b0 (with_referrer_policy p) b h = set_referrer-Honest b0 b p h
apply_option-Honest b0 (with_cross_origin_embedder_policy p) b h = set_embedder-Honest b0 b p h
apply_option-Honest b0 (allow_script_sources reason sources) b h =
    document_weakened b0 b (codes "AllowScriptSources") (add_script_sources reason sources)
      (add_script_sources-clear reason sources b)
apply_option-Honest b0 (allow_style_sources reason sources) b h =
    document_weakened b0 b (codes "AllowStyleSources") (add_style_sources reason sources)
      (add_style_sources-clear reason sources b)
apply_option-Honest b0 (allow_connect_sources reason sources) b h =
    document_weakened b0 b (codes "AllowConnectSources") (add_connect_sources reason sources)
      (add_connect_sources-clear reason sources b)
apply_option-Honest b0 (allow_image_sources reason sources) b h =
    document_weakened b0 b (codes "AllowImageSources") (add_image_sources reason sources)
      (add_image_sources-clear reason sources b)
apply_option-Honest b0 (allow_font_sources reason sources) b h =
    document_weakened b0 b (codes "AllowFontSources") (add_font_sources reason sources)
      (add_font_sources-clear reason sources b)
apply_option-Honest b0 (allow_frame_ancestors reason sources) b h =
    document_weakened b0 b (codes "AllowFrameAncestors")
      (λ (b : Builder). replace_ancestors b reason sources)
      (replace_ancestors-clear reason sources b)
apply_option-Honest b0 (allow_inline_style_attributes reason) b h =
    document_weakened b0 b (codes "AllowInlineStyleAttributes") (inline_style_attributes reason)
      (inline_style_attributes-clear reason b)
apply_option-Honest b0 (allow_cross_origin_popups reason) b h =
    weakened b0 _ (allow_popups-clear reason b)
apply_option-Honest b0 (allow_cross_origin_resources reason p) b h =
    weakened b0 _ (share_resources-clear b reason p)
apply_option-Honest b0 (allow_referrer_policy reason p) b h =
    weakened b0 _ (leak_referrer-clear b reason p)
apply_option-Honest b0 (allow_permission reason feature list) b h =
    permit-Honest b0 b reason feature list h
apply_option-Honest b0 (allow_reduced_hsts reason max_age subdomains) b h =
    weakened b0 _ (reduce_hsts-clear b reason max_age subdomains)

pub apply_options-Honest :
    (b0 : Builder) (opts : List (Option PolicyOption)) (b : Builder)
    → Honest b0 b
    → Honest b0 (apply_options opts b)
unfolding apply_options
apply_options-Honest b0 [] b h = h
apply_options-Honest b0 (none ∷ opts) b h =
    apply_options-Honest b0 opts (fail b nil_option) (failed b0 b nil_option)
apply_options-Honest b0 (some opt ∷ opts) b h =
    apply_options-Honest b0 opts (apply_option opt b) (apply_option-Honest b0 opt b h)
