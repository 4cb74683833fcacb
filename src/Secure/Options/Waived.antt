-- ===== src/Secure/Options/Waived.antt =====
-- An option that weakens the policy leaves a waiver or an error.
use nise_and_go.Common.{
  ◌≡◌, refl, ◌⊎◌, inl, inr, Bool, true, false, ◌&&◌, ◌||◌, not, List, [], ◌∷◌, ◌++◌, arith,
  if-intro,
}
use nise_and_go.Common.Text.{is_empty-snoc, str_eq, Bytes, is_empty, codes}
use nise_and_go.Common.Clock.{Duration}
use nise_and_go.Common.Result.{ok, err, Result-cases}
use nise_and_go.Secure.Source.{
  no_sources, valid_source, empty_reason, SecureError, classify_report_uri, same_origin,
}
use nise_and_go.Secure.Builder.{
  resource_same_origin, resource_cross_origin, resource_same_site, referrer_valid, production,
  Builder, fail, waive, add_source_loop, add_sources, leaks_referrer_cross_origin,
}
use nise_and_go.Secure.Options.{
  external, pos, leb_ℤ, report_uri_local, join_text, report_abroad, leak_referrer, share_resources,
  replace_ancestors, reduce_hsts, add_script_sources, add_style_sources, add_connect_sources,
  add_image_sources, add_font_sources, inline_style_attributes, suspend_csp, allow_popups,
}

-- No waiver and no error.
unfoldable pub clear : Builder → Bool
clear b = is_empty b.waivers && is_empty b.errs

pub fail-clear : (b : Builder) (e : SecureError) → clear (fail b e) ≡ false
unfolding clear
fail-clear b e = ground (arith, is_empty-snoc b.errs e)

pub waive-clear :
    (b : Builder) (control detail reason : Bytes) → clear (waive b control detail reason) ≡ false
unfolding clear waive
waive-clear b control detail reason = ground (
  arith,
  is_empty-snoc b.errs (empty_reason control detail),
  is_empty-snoc b.waivers (record { control = control; detail = detail; reason = reason }),
)

pub add_script_sources-clear :
    (reason : Bytes) (sources : List Bytes) (b : Builder)
    → clear (add_script_sources reason sources b) ≡ false
unfolding add_script_sources
add_script_sources-clear reason sources b = waive-clear _ _ _ _

pub add_style_sources-clear :
    (reason : Bytes) (sources : List Bytes) (b : Builder)
    → clear (add_style_sources reason sources b) ≡ false
unfolding add_style_sources
add_style_sources-clear reason sources b = waive-clear _ _ _ _

pub add_connect_sources-clear :
    (reason : Bytes) (sources : List Bytes) (b : Builder)
    → clear (add_connect_sources reason sources b) ≡ false
unfolding add_connect_sources
add_connect_sources-clear reason sources b = waive-clear _ _ _ _

pub add_image_sources-clear :
    (reason : Bytes) (sources : List Bytes) (b : Builder)
    → clear (add_image_sources reason sources b) ≡ false
unfolding add_image_sources
add_image_sources-clear reason sources b = waive-clear _ _ _ _

pub add_font_sources-clear :
    (reason : Bytes) (sources : List Bytes) (b : Builder)
    → clear (add_font_sources reason sources b) ≡ false
unfolding add_font_sources
add_font_sources-clear reason sources b = waive-clear _ _ _ _

pub inline_style_attributes-clear :
    (reason : Bytes) (b : Builder) → clear (inline_style_attributes reason b) ≡ false
unfolding inline_style_attributes
inline_style_attributes-clear reason b = waive-clear _ _ _ _

pub suspend_csp-clear : (reason : Bytes) (b : Builder) → clear (suspend_csp reason b) ≡ false
unfolding suspend_csp
suspend_csp-clear reason b = waive-clear _ _ _ _

pub allow_popups-clear : (reason : Bytes) (b : Builder) → clear (allow_popups reason b) ≡ false
unfolding allow_popups
allow_popups-clear reason b = waive-clear _ _ _ _

-- Every answer about a report address.
pub report-cases :
    (uri : Bytes)
    → ((e : SecureError) × (classify_report_uri uri ≡ err e))
      ⊎ (classify_report_uri uri ≡ ok same_origin)
      ⊎ (classify_report_uri uri ≡ ok external)
report-cases uri = elim (Result-cases (classify_report_uri uri)) [
  | inl (same_origin, e) ↦ inr (inl e)
  | inl (external, e) ↦ inr (inr e)
  | inr (p, e) ↦ inl (p, e)
]

pub report_abroad-clear :
    (b : Builder) (reason uri : Bytes) → clear (report_abroad b reason uri) ≡ false
unfolding report_abroad clear
report_abroad-clear b reason uri = elim (report-cases uri) [
  | inl (p, e) ↦ rw (e, report_abroad) (fail-clear b p)
  | inr (inl e) ↦ rw (e, report_abroad) (fail-clear b (report_uri_local uri))
  | inr (inr e) ↦
      rw (e, report_abroad)
        (waive-clear b (codes "content-security-policy") (codes "report-uri " ++ uri) reason)
]

pub leak_referrer-clear :
    (b : Builder) (reason p : Bytes) → clear (leak_referrer b reason p) ≡ false
unfolding leak_referrer
leak_referrer-clear b reason p =
    if-intro (λ (x : Builder). clear x ≡ false) (not (referrer_valid p)) _ _ (λ e. fail-clear _ _)
      λ e.
        if-intro (λ (x : Builder). clear x ≡ false) (not (leaks_referrer_cross_origin p)) _ _
          (λ e. fail-clear _ _) λ e. waive-clear _ _ _ _

pub share_resources-clear :
    (b : Builder) (reason p : Bytes) → clear (share_resources b reason p) ≡ false
unfolding share_resources
share_resources-clear b reason p =
    if-intro (λ (x : Builder). clear x ≡ false)
      (str_eq p resource_same_site || str_eq p resource_cross_origin) _ _ (λ e. waive-clear _ _ _ _)
      λ e.
        if-intro (λ (x : Builder). clear x ≡ false) (str_eq p resource_same_origin) _ _
          (λ e. fail-clear _ _) λ e. fail-clear _ _

pub reduce_hsts-clear :
    (b : Builder) (reason : Bytes) (max_age : Duration) (subdomains : Bool)
    → clear (reduce_hsts b reason max_age subdomains) ≡ false
unfolding reduce_hsts
reduce_hsts-clear b reason max_age subdomains =
    if-intro (λ (x : Builder). clear x ≡ false) (not (str_eq b.deployment production)) _ _
      (λ e. fail-clear _ _)
      λ e.
        if-intro (λ (x : Builder). clear x ≡ false) (leb_ℤ max_age (pos 0)) _ _
          (λ e. fail-clear _ _) λ e. waive-clear _ _ _ _

-- Sources leave something behind: an accepted one or an error.
add_source_loop-leaves :
    (sources dst : List Bytes) (errs : List SecureError)
    → (is_empty sources && is_empty dst && is_empty errs) ≡ false
    → let r = add_source_loop sources dst errs in (is_empty r.0 && is_empty r.1) ≡ false
unfolding add_source_loop
add_source_loop-leaves [] dst errs h = h
add_source_loop-leaves (s ∷ sources) dst errs h = elim (Result-cases (valid_source s)) [
  | inl (u, e) ↦
      rw (e, add_source_loop)
        (add_source_loop-leaves sources (dst ++ s ∷ []) errs (ground (arith, is_empty-snoc dst s)))
  | inr (p, e) ↦
      rw (e, add_source_loop)
        (add_source_loop-leaves sources dst (errs ++ p ∷ []) (ground (arith, is_empty-snoc errs p)))
]

add_sources-leaves :
    (sources dst : List Bytes) (errs : List SecureError)
    → let r = add_sources dst sources errs in (is_empty r.0 && is_empty r.1) ≡ false
unfolding add_sources
add_sources-leaves [] dst errs = ground (arith, is_empty-snoc errs no_sources)
add_sources-leaves (s ∷ sources) dst errs = add_source_loop-leaves (s ∷ sources) dst errs refl

not_clear : (w x y : Bool) → x ≡ true → (x && y) ≡ false → (w && y) ≡ false
not_clear w x y h k = ground (arith, h, k)

pub replace_ancestors-clear :
    (reason : Bytes) (sources : List Bytes) (b : Builder)
    → clear (replace_ancestors b reason sources) ≡ false
unfolding replace_ancestors clear
replace_ancestors-clear reason sources b =
    let r = add_sources [] sources b.errs in
    if-intro (λ (x : Builder). clear x ≡ false) (is_empty r.0) (record b { errs = r.1 })
      (waive (record b { errs = r.1; frame_ancestors = r.0 }) (codes "frame-ancestors")
        (join_text (codes " ") r.0) reason)
      (λ e.
        not_clear (is_empty b.waivers) (is_empty r.0) (is_empty r.1) e
          (add_sources-leaves sources [] b.errs))
      λ e. waive-clear _ _ _ _
