-- ===== src/Secure/Options.antt =====
-- runtime/secure/options.go: the options, and what each does to the builder.
pub mod Sources
pub mod Reasons
pub mod Honest
pub mod Waived
use nise_and_go.Common.{
  ℕ, Bool, true, false, ◌&&◌, ◌||◌, not, List, [], ◌∷◌, ◌++◌, Option, none, some, if◌then◌else◌,
}
use nise_and_go.Common.Int.{ℤ, pos, leb_ℤ}
use nise_and_go.Common.Clock.{Duration}
use nise_and_go.Common.Text.{Bytes, codes, str_eq, is_empty}
use nise_and_go.Common.Space.{trim_space}
use nise_and_go.Common.Affix.{join_text}
use nise_and_go.Common.Keys.{contains}
use nise_and_go.Common.Result.{ok, err}
use nise_and_go.Secure.Source.{
  SecureError, ReportForm, same_origin, external, normalize_hash, classify_report_uri,
  valid_permission_feature, valid_permission_allowlist_item, report_uri_external, report_uri_local,
  unknown_referrer, leaking_referrer, private_referrer, unknown_embedder, unknown_resource,
  default_resource, permission_reason, reduced_in_development, reduced_to_nothing, nil_option,
}
use nise_and_go.Secure.Directive.{allowlist, set_allowlist}
use nise_and_go.Secure.Span.{duration_text}
use nise_and_go.Secure.Builder.{
  Builder, ReferrerPolicy, ResourcePolicy, EmbedderPolicy, production, referrer_valid,
  leaks_referrer_cross_origin, resource_same_origin, resource_same_site, resource_cross_origin,
  embedder_require_corp, embedder_credentialless, fail, waive, on_document, add_sources,
}

-- A call of an option's constructor, with its arguments.
pub data PolicyOption : Type 0 where
  allow_report_only : Bytes → PolicyOption
  with_report_uri : Bytes → PolicyOption
  allow_external_report_uri : Bytes → Bytes → PolicyOption
  with_script_hashes with_style_hashes : List Bytes → PolicyOption
  with_hsts_preload : PolicyOption
  with_referrer_policy : ReferrerPolicy → PolicyOption
  with_cross_origin_embedder_policy : EmbedderPolicy → PolicyOption
  allow_script_sources allow_style_sources allow_connect_sources : Bytes → List Bytes → PolicyOption
  allow_image_sources allow_font_sources allow_frame_ancestors : Bytes → List Bytes → PolicyOption
  allow_inline_style_attributes allow_cross_origin_popups : Bytes → PolicyOption
  allow_cross_origin_resources : Bytes → ResourcePolicy → PolicyOption
  allow_referrer_policy : Bytes → ReferrerPolicy → PolicyOption
  allow_permission : Bytes → Bytes → List Bytes → PolicyOption
  allow_reduced_hsts : Bytes → Duration → Bool → PolicyOption

-- The loop of the two hash options.
unfoldable pub add_hashes :
    List Bytes → List Bytes → List SecureError → List Bytes × List SecureError
unfolding normalize_hash
add_hashes [] dst errs = (dst, errs)
add_hashes (raw ∷ hashes) dst errs = elim (normalize_hash raw) [
  | err e ↦ add_hashes hashes dst (errs ++ e ∷ [])
  | ok h ↦ add_hashes hashes (dst ++ h ∷ []) errs
]

unfoldable pub report_to : Builder → Bytes → Builder
unfolding classify_report_uri
report_to b uri = elim (classify_report_uri uri) [
  | err e ↦ fail b e
  | ok same_origin ↦ record b { report_uri = uri }
  | ok external ↦ fail b (report_uri_external uri)
]

unfoldable pub report_abroad : Builder → Bytes → Bytes → Builder
unfolding classify_report_uri waive
report_abroad b reason uri = elim (classify_report_uri uri) [
  | err e ↦ fail b e
  | ok same_origin ↦ fail b (report_uri_local uri)
  | ok external ↦
      record (waive b (codes "content-security-policy") (codes "report-uri " ++ uri) reason) {
        report_uri = uri;
      }
]

unfoldable pub set_referrer : Builder → ReferrerPolicy → Builder
unfolding referrer_valid leaks_referrer_cross_origin
set_referrer b p =
    if not (referrer_valid p)
    then fail b (unknown_referrer p)
    else if leaks_referrer_cross_origin p
    then fail b (leaking_referrer p)
    else record b { referrer = p }

unfoldable pub leak_referrer : Builder → Bytes → ReferrerPolicy → Builder
unfolding referrer_valid leaks_referrer_cross_origin waive
leak_referrer b reason p =
    if not (referrer_valid p)
    then fail b (unknown_referrer p)
    else if not (leaks_referrer_cross_origin p)
    then fail b (private_referrer p)
    else waive (record b { referrer = p }) (codes "referrer-policy") p reason

unfoldable pub set_embedder : Builder → EmbedderPolicy → Builder
set_embedder b p =
    if str_eq p embedder_require_corp || str_eq p embedder_credentialless
    then record b { coep = p }
    else fail b (unknown_embedder p)

unfoldable pub share_resources : Builder → Bytes → ResourcePolicy → Builder
unfolding waive
share_resources b reason p =
    if str_eq p resource_same_site || str_eq p resource_cross_origin
    then waive (record b { corp = p }) (codes "cross-origin-resource-policy") p reason
    else if str_eq p resource_same_origin
    then fail b (default_resource p)
    else fail b (unknown_resource p)

-- `replaced` is empty if no source was accepted, and then nothing but the errors changes.
unfoldable pub replace_ancestors : Builder → Bytes → List Bytes → Builder
unfolding add_sources waive join_text
replace_ancestors b reason sources =
    let (replaced, errs) = add_sources [] sources b.errs in
    let noted = record b { errs = errs } in
    if is_empty replaced
    then noted
    else waive (record noted { frame_ancestors = replaced }) (codes "frame-ancestors")
        (join_text (codes " ") replaced) reason

-- The accepted items and the errors of the others.
unfoldable pub accepted_items :
    List Bytes → List Bytes → List SecureError → List Bytes × List SecureError
unfolding valid_permission_allowlist_item
accepted_items [] items errs = (items, errs)
accepted_items (item ∷ list) items errs = elim (valid_permission_allowlist_item item) [
  | err e ↦ accepted_items list items (errs ++ e ∷ [])
  | ok _ ↦ accepted_items list (items ++ item ∷ []) errs
]

-- Whether an item is new to the feature.
unfoldable pub grants_new : List Bytes → List Bytes → Bool
unfolding contains
grants_new already [] = false
grants_new already (item ∷ items) = not (contains already item) || grants_new already items

-- The part of `AllowPermission` after the checks of the reason and of the feature.
unfoldable pub grant : Builder → Bytes → Bytes → List Bytes → Builder
unfolding accepted_items grants_new waive join_text allowlist set_allowlist
grant b reason feature list =
    let (items, errs) = accepted_items list [] b.errs in
    let changed = record b {
      permissions = set_allowlist b.permissions feature items;
      errs = errs;
    } in
    if grants_new (allowlist b.permissions feature) items
    then waive changed (codes "permissions-policy")
        (feature ++ (codes "=(" ++ (join_text (codes " ") items ++ codes ")"))) reason
    else changed

unfoldable pub permit : Builder → Bytes → Bytes → List Bytes → Builder
unfolding grant valid_permission_feature
permit b reason feature list =
    if is_empty (trim_space reason)
    then fail b permission_reason
    else elim (valid_permission_feature feature) [
      | err e ↦ fail b e
      | ok _ ↦ grant b reason feature list
    ]

unfoldable pub reduce_hsts : Builder → Bytes → Duration → Bool → Builder
unfolding waive duration_text
reduce_hsts b reason max_age include_subdomains =
    if not (str_eq b.deployment production)
    then fail b reduced_in_development
    else if leb_ℤ max_age (pos 0)
    then fail b reduced_to_nothing
    else let detail = codes "max-age=" ++ duration_text max_age in
      waive (record b { hsts_max_age = max_age; hsts_include_subdomains = include_subdomains })
        (codes "strict-transport-security")
        (if include_subdomains then detail else detail ++ codes ", no includeSubDomains") reason

-- What the options of a document policy do to it.
unfoldable pub add_script_hashes : List Bytes → Builder → Builder
unfolding add_hashes
add_script_hashes hashes b =
    let (sources, errs) = add_hashes hashes b.script_src b.errs in
    record b { script_src = sources; errs = errs }

unfoldable pub add_style_hashes : List Bytes → Builder → Builder
unfolding add_hashes
add_style_hashes hashes b =
    let (sources, errs) = add_hashes hashes b.style_src b.errs in
    record b { style_src = sources; errs = errs }

unfoldable pub add_script_sources : Bytes → List Bytes → Builder → Builder
unfolding add_sources join_text waive
add_script_sources reason sources b =
    let (list, errs) = add_sources b.script_src sources b.errs in
    waive (record b { script_src = list; errs = errs }) (codes "script-src")
      (join_text (codes " ") sources) reason

unfoldable pub add_style_sources : Bytes → List Bytes → Builder → Builder
unfolding add_sources join_text waive
add_style_sources reason sources b =
    let (list, errs) = add_sources b.style_src sources b.errs in
    waive (record b { style_src = list; errs = errs }) (codes "style-src")
      (join_text (codes " ") sources) reason

unfoldable pub add_connect_sources : Bytes → List Bytes → Builder → Builder
unfolding add_sources join_text waive
add_connect_sources reason sources b =
    let (list, errs) = add_sources b.connect_src sources b.errs in
    waive (record b { connect_src = list; errs = errs }) (codes "connect-src")
      (join_text (codes " ") sources) reason

unfoldable pub add_image_sources : Bytes → List Bytes → Builder → Builder
unfolding add_sources join_text waive
add_image_sources reason sources b =
    let (list, errs) = add_sources b.img_src sources b.errs in
    waive (record b { img_src = list; errs = errs }) (codes "img-src")
      (join_text (codes " ") sources) reason

unfoldable pub add_font_sources : Bytes → List Bytes → Builder → Builder
unfolding add_sources join_text waive
add_font_sources reason sources b =
    let (list, errs) = add_sources b.font_src sources b.errs in
    waive (record b { font_src = list; errs = errs }) (codes "font-src")
      (join_text (codes " ") sources) reason

unfoldable pub inline_style_attributes : Bytes → Builder → Builder
unfolding waive
inline_style_attributes reason b =
    waive (record b { inline_style_attr = true }) (codes "style-src-attr") (codes "'unsafe-inline'")
      reason

unfoldable pub suspend_csp : Bytes → Builder → Builder
unfolding waive
suspend_csp reason b =
    waive (record b { report_only = true }) (codes "content-security-policy")
      (codes "report-only, not enforced") reason

unfoldable pub allow_popups : Bytes → Builder → Builder
unfolding waive
allow_popups reason b =
    waive (record b { coop = codes "same-origin-allow-popups" })
      (codes "cross-origin-opener-policy") (codes "same-origin-allow-popups") reason

-- What an option does to the builder.
unfoldable pub apply_option : PolicyOption → Builder → Builder
unfolding add_script_hashes add_style_hashes add_script_sources add_style_sources
    add_connect_sources add_image_sources add_font_sources inline_style_attributes suspend_csp
    allow_popups report_to report_abroad set_referrer leak_referrer set_embedder share_resources
    replace_ancestors permit reduce_hsts
apply_option (allow_report_only reason) b = suspend_csp reason b
apply_option (with_report_uri uri) b = report_to b uri
apply_option (allow_external_report_uri reason uri) b = report_abroad b reason uri
apply_option (with_script_hashes hashes) b =
    on_document b (codes "WithScriptHashes") (add_script_hashes hashes)
apply_option (with_style_hashes hashes) b =
    on_document b (codes "WithStyleHashes") (add_style_hashes hashes)
apply_option with_hsts_preload b = record b { hsts_preload = true }
apply_option (with_referrer_policy p) b = set_referrer b p
apply_option (with_cross_origin_embedder_policy p) b = set_embedder b p
apply_option (allow_script_sources reason sources) b =
    on_document b (codes "AllowScriptSources") (add_script_sources reason sources)
apply_option (allow_style_sources reason sources) b =
    on_document b (codes "AllowStyleSources") (add_style_sources reason sources)
apply_option (allow_connect_sources reason sources) b =
    on_document b (codes "AllowConnectSources") (add_connect_sources reason sources)
apply_option (allow_image_sources reason sources) b =
    on_document b (codes "AllowImageSources") (add_image_sources reason sources)
apply_option (allow_font_sources reason sources) b =
    on_document b (codes "AllowFontSources") (add_font_sources reason sources)
apply_option (allow_frame_ancestors reason sources) b =
    on_document b (codes "AllowFrameAncestors") λ (b : Builder). replace_ancestors b reason sources
apply_option (allow_inline_style_attributes reason) b =
    on_document b (codes "AllowInlineStyleAttributes") (inline_style_attributes reason)
apply_option (allow_cross_origin_popups reason) b = allow_popups reason b
apply_option (allow_cross_origin_resources reason p) b = share_resources b reason p
apply_option (allow_referrer_policy reason p) b = leak_referrer b reason p
apply_option (allow_permission reason feature list) b = permit b reason feature list
apply_option (allow_reduced_hsts reason max_age subdomains) b =
    reduce_hsts b reason max_age subdomains

-- The loop of `newPolicy`; `none` is a nil option.
unfoldable pub apply_options : List (Option PolicyOption) → Builder → Builder
unfolding apply_option
apply_options [] b = b
apply_options (none ∷ opts) b = apply_options opts (fail b nil_option)
apply_options (some opt ∷ opts) b = apply_options opts (apply_option opt b)
