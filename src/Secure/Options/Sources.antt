-- ===== src/Secure/Options/Sources.antt =====
-- Every source that an option brings into the builder was accepted.
use nise_and_go.Common.{◌≡◌, inl, inr, Bool, false, List, [], ◌∷◌, ◌++◌, Option, none, some, arith}
use nise_and_go.Common.Text.{Bytes, is_empty, All, codes}
use nise_and_go.Common.Result.{ok, Result-cases}
use nise_and_go.Secure.Source.{
  document_only_option, SecureError, valid_source, normalize_hash, classify_report_uri,
}
use nise_and_go.Secure.Source.Hash.{normalize_hash-IsHash}
use nise_and_go.Secure.Builder.{
  Builder, Profile, document, api, fail, waive, on_document, add_source_loop, add_sources,
}
use nise_and_go.Secure.Options.{
  grant, Duration, nil_option, PolicyOption, allow_report_only, with_report_uri,
  allow_external_report_uri, with_script_hashes, with_style_hashes, with_hsts_preload,
  with_referrer_policy, with_cross_origin_embedder_policy, allow_script_sources,
  allow_style_sources, allow_connect_sources, allow_image_sources, allow_font_sources,
  allow_frame_ancestors, allow_inline_style_attributes, allow_cross_origin_popups,
  allow_cross_origin_resources, allow_referrer_policy, allow_permission, allow_reduced_hsts,
  add_hashes, report_to, report_abroad, set_referrer, leak_referrer, set_embedder, share_resources,
  replace_ancestors, permit, reduce_hsts, apply_option, apply_options, add_script_hashes,
  add_style_hashes, add_script_sources, add_style_sources, add_connect_sources, add_image_sources,
  add_font_sources, inline_style_attributes, suspend_csp, allow_popups,
}

abbrev pub Accepted : Bytes → Type 0
Accepted s = valid_source s ≡ ok tt

abbrev pub AllAccepted : List Bytes → Type 0
AllAccepted l = All Accepted l

-- The lists of sources, and the address of reports if there is one.
abbrev pub Sourced : Builder → Type 0
Sourced b =
    AllAccepted b.connect_src
    × AllAccepted b.font_src
    × AllAccepted b.form_action
    × AllAccepted b.frame_ancestors
    × AllAccepted b.img_src
    × AllAccepted b.script_src
    × AllAccepted b.style_src
    × (is_empty b.report_uri ≡ false → Accepted b.report_uri)

Accepted-snoc :
    (l : List Bytes) (s : Bytes) → AllAccepted l → Accepted s → AllAccepted (l ++ s ∷ [])
Accepted-snoc [] s h k = (k, tt)
Accepted-snoc (x ∷ l) s h k = (h.0, Accepted-snoc l s h.1 k)

add_source_loop-Accepted :
    (sources dst : List Bytes) (errs : List SecureError)
    → AllAccepted dst
    → AllAccepted (add_source_loop sources dst errs).0
unfolding add_source_loop
add_source_loop-Accepted [] dst errs h = h
add_source_loop-Accepted (s ∷ sources) dst errs h = elim (Result-cases (valid_source s)) [
  | inl (u, e) ↦
      rw (e, add_source_loop)
        (add_source_loop-Accepted sources (dst ++ s ∷ []) errs
          (Accepted-snoc dst s h (ground (arith, e))))
  | inr (p, e) ↦ rw (e, add_source_loop) (add_source_loop-Accepted sources dst (errs ++ p ∷ []) h)
]

add_sources-Accepted :
    (dst sources : List Bytes) (errs : List SecureError)
    → AllAccepted dst
    → AllAccepted (add_sources dst sources errs).0
unfolding add_sources
add_sources-Accepted dst [] errs h = h
add_sources-Accepted dst (s ∷ sources) errs h = add_source_loop-Accepted (s ∷ sources) dst errs h

add_hashes-Accepted :
    (hashes dst : List Bytes) (errs : List SecureError)
    → AllAccepted dst
    → AllAccepted (add_hashes hashes dst errs).0
unfolding add_hashes
add_hashes-Accepted [] dst errs h = h
add_hashes-Accepted (raw ∷ hashes) dst errs h = elim (Result-cases (normalize_hash raw)) [
  | inl (s, e) ↦
      rw (e, add_hashes)
        (add_hashes-Accepted hashes (dst ++ s ∷ []) errs
          (Accepted-snoc dst s h (normalize_hash-IsHash raw s e).1))
  | inr (p, e) ↦ rw (e, add_hashes) (add_hashes-Accepted hashes dst (errs ++ p ∷ []) h)
]

waive-Sourced :
    (b : Builder) (control detail reason : Bytes)
    → Sourced b
    → Sourced (waive b control detail reason)
unfolding waive
waive-Sourced b control detail reason h = ground (arith, h)

pick :
    (P : Builder → Type 0) (p : Profile) (x y : Builder)
    → P x
    → P y
    → P (elim p [ document ↦ x | api ↦ y ])
pick P document x y h k = h
pick P api x y h k = k

-- A change of a document policy, or an error.
pub on_document-intro :
    (P : Builder → Type 0) (b : Builder) (option : Bytes) (change : Builder → Builder)
    → P (change b)
    → P (fail b (document_only_option option))
    → P (on_document b option change)
on_document-intro P b option change h k =
    pick P b.profile (change b) (fail b (document_only_option option)) h k

report_to-Sourced : (b : Builder) (uri : Bytes) → Sourced b → Sourced (report_to b uri)
unfolding report_to classify_report_uri
report_to-Sourced b uri h = ground (arith, h)

report_abroad-Sourced :
    (b : Builder) (reason uri : Bytes) → Sourced b → Sourced (report_abroad b reason uri)
unfolding report_abroad classify_report_uri waive
report_abroad-Sourced b reason uri h = ground (arith, h)

set_referrer-Sourced : (b : Builder) (p : Bytes) → Sourced b → Sourced (set_referrer b p)
unfolding set_referrer
set_referrer-Sourced b p h = ground (arith, h)

leak_referrer-Sourced :
    (b : Builder) (reason p : Bytes) → Sourced b → Sourced (leak_referrer b reason p)
unfolding leak_referrer waive
leak_referrer-Sourced b reason p h = ground (arith, h)

set_embedder-Sourced : (b : Builder) (p : Bytes) → Sourced b → Sourced (set_embedder b p)
unfolding set_embedder
set_embedder-Sourced b p h = ground (arith, h)

share_resources-Sourced :
    (b : Builder) (reason p : Bytes) → Sourced b → Sourced (share_resources b reason p)
unfolding share_resources waive
share_resources-Sourced b reason p h = ground (arith, h)

replace_ancestors-Sourced :
    (b : Builder) (reason : Bytes) (sources : List Bytes)
    → Sourced b
    → Sourced (replace_ancestors b reason sources)
unfolding replace_ancestors waive
replace_ancestors-Sourced b reason sources h =
    ground (arith, h, add_sources-Accepted [] sources b.errs tt)

permit-Sourced :
    (b : Builder) (reason feature : Bytes) (list : List Bytes)
    → Sourced b
    → Sourced (permit b reason feature list)
unfolding permit grant waive
permit-Sourced b reason feature list h = ground (arith, h)

reduce_hsts-Sourced :
    (b : Builder) (reason : Bytes) (max_age : Duration) (subdomains : Bool)
    → Sourced b
    → Sourced (reduce_hsts b reason max_age subdomains)
unfolding reduce_hsts waive
reduce_hsts-Sourced b reason max_age subdomains h = ground (arith, h)

add_script_hashes-Sourced :
    (hashes : List Bytes) (b : Builder) → Sourced b → Sourced (add_script_hashes hashes b)
unfolding add_script_hashes
add_script_hashes-Sourced hashes b h =
    ground (arith, h, add_hashes-Accepted hashes b.script_src b.errs)

add_style_hashes-Sourced :
    (hashes : List Bytes) (b : Builder) → Sourced b → Sourced (add_style_hashes hashes b)
unfolding add_style_hashes
add_style_hashes-Sourced hashes b h =
    ground (arith, h, add_hashes-Accepted hashes b.style_src b.errs)

add_script_sources-Sourced :
    (reason : Bytes) (sources : List Bytes) (b : Builder)
    → Sourced b
    → Sourced (add_script_sources reason sources b)
unfolding add_script_sources waive
add_script_sources-Sourced reason sources b h =
    ground (arith, h, add_sources-Accepted b.script_src sources b.errs)

add_style_sources-Sourced :
    (reason : Bytes) (sources : List Bytes) (b : Builder)
    → Sourced b
    → Sourced (add_style_sources reason sources b)
unfolding add_style_sources waive
add_style_sources-Sourced reason sources b h =
    ground (arith, h, add_sources-Accepted b.style_src sources b.errs)

add_connect_sources-Sourced :
    (reason : Bytes) (sources : List Bytes) (b : Builder)
    → Sourced b
    → Sourced (add_connect_sources reason sources b)
unfolding add_connect_sources waive
add_connect_sources-Sourced reason sources b h =
    ground (arith, h, add_sources-Accepted b.connect_src sources b.errs)

add_image_sources-Sourced :
    (reason : Bytes) (sources : List Bytes) (b : Builder)
    → Sourced b
    → Sourced (add_image_sources reason sources b)
unfolding add_image_sources waive
add_image_sources-Sourced reason sources b h =
    ground (arith, h, add_sources-Accepted b.img_src sources b.errs)

add_font_sources-Sourced :
    (reason : Bytes) (sources : List Bytes) (b : Builder)
    → Sourced b
    → Sourced (add_font_sources reason sources b)
unfolding add_font_sources waive
add_font_sources-Sourced reason sources b h =
    ground (arith, h, add_sources-Accepted b.font_src sources b.errs)

inline_style_attributes-Sourced :
    (reason : Bytes) (b : Builder) → Sourced b → Sourced (inline_style_attributes reason b)
unfolding inline_style_attributes waive
inline_style_attributes-Sourced reason b h = ground (arith, h)

suspend_csp-Sourced : (reason : Bytes) (b : Builder) → Sourced b → Sourced (suspend_csp reason b)
unfolding suspend_csp waive
suspend_csp-Sourced reason b h = ground (arith, h)

allow_popups-Sourced : (reason : Bytes) (b : Builder) → Sourced b → Sourced (allow_popups reason b)
unfolding allow_popups waive
allow_popups-Sourced reason b h = ground (arith, h)

apply_option-Sourced : (o : PolicyOption) (b : Builder) → Sourced b → Sourced (apply_option o b)
unfolding apply_option
apply_option-Sourced (allow_report_only reason) b h = suspend_csp-Sourced reason b h
apply_option-Sourced (with_report_uri uri) b h = report_to-Sourced b uri h
apply_option-Sourced (allow_external_report_uri reason uri) b h =
    report_abroad-Sourced b reason uri h
apply_option-Sourced with_hsts_preload b h = h
apply_option-Sourced (with_referrer_policy p) b h = set_referrer-Sourced b p h
apply_option-Sourced (with_cross_origin_embedder_policy p) b h = set_embedder-Sourced b p h
apply_option-Sourced (with_script_hashes hashes) b h =
    on_document-intro Sourced b (codes "WithScriptHashes") (add_script_hashes hashes)
      (add_script_hashes-Sourced hashes b h) h
apply_option-Sourced (with_style_hashes hashes) b h =
    on_document-intro Sourced b (codes "WithStyleHashes") (add_style_hashes hashes)
      (add_style_hashes-Sourced hashes b h) h
apply_option-Sourced (allow_script_sources reason sources) b h =
    on_document-intro Sourced b (codes "AllowScriptSources") (add_script_sources reason sources)
      (add_script_sources-Sourced reason sources b h) h
apply_option-Sourced (allow_style_sources reason sources) b h =
    on_document-intro Sourced b (codes "AllowStyleSources") (add_style_sources reason sources)
      (add_style_sources-Sourced reason sources b h) h
apply_option-Sourced (allow_connect_sources reason sources) b h =
    on_document-intro Sourced b (codes "AllowConnectSources") (add_connect_sources reason sources)
      (add_connect_sources-Sourced reason sources b h) h
apply_option-Sourced (allow_image_sources reason sources) b h =
    on_document-intro Sourced b (codes "AllowImageSources") (add_image_sources reason sources)
      (add_image_sources-Sourced reason sources b h) h
apply_option-Sourced (allow_font_sources reason sources) b h =
    on_document-intro Sourced b (codes "AllowFontSources") (add_font_sources reason sources)
      (add_font_sources-Sourced reason sources b h) h
apply_option-Sourced (allow_frame_ancestors reason sources) b h =
    on_document-intro Sourced b (codes "AllowFrameAncestors")
      (λ (b : Builder). replace_ancestors b reason sources)
      (replace_ancestors-Sourced b reason sources h) h
apply_option-Sourced (allow_inline_style_attributes reason) b h =
    on_document-intro Sourced b (codes "AllowInlineStyleAttributes")
      (inline_style_attributes reason) (inline_style_attributes-Sourced reason b h) h
apply_option-Sourced (allow_cross_origin_popups reason) b h = allow_popups-Sourced reason b h
apply_option-Sourced (allow_cross_origin_resources reason p) b h =
    share_resources-Sourced b reason p h
apply_option-Sourced (allow_referrer_policy reason p) b h = leak_referrer-Sourced b reason p h
apply_option-Sourced (allow_permission reason feature list) b h =
    permit-Sourced b reason feature list h
apply_option-Sourced (allow_reduced_hsts reason max_age subdomains) b h =
    reduce_hsts-Sourced b reason max_age subdomains h

pub apply_options-Sourced :
    (opts : List (Option PolicyOption)) (b : Builder) → Sourced b → Sourced (apply_options opts b)
unfolding apply_options
apply_options-Sourced [] b h = h
apply_options-Sourced (none ∷ opts) b h = apply_options-Sourced opts (fail b nil_option) h
apply_options-Sourced (some opt ∷ opts) b h =
    apply_options-Sourced opts (apply_option opt b) (apply_option-Sourced opt b h)
