-- ===== src/Secure/Policy.antt =====
-- runtime/secure/policy.go: `newPolicy` and `build`.
pub mod Built
pub mod Defaults
pub mod Strict
pub mod Transport
use nise_and_go.Common.{
  ℕ, ◌*◌, Bool, true, false, ◌&&◌, ◌||◌, not, List, [], ◌∷◌, ◌++◌, Option, none, some,
  if◌then◌else◌,
}
use nise_and_go.Common.Int.{ℤ, pos, ltb_ℤ}
use nise_and_go.Common.Clock.{Duration, hour}
use nise_and_go.Common.Text.{Bytes, codes, str_eq, is_empty}
use nise_and_go.Common.Affix.{decimal}
use nise_and_go.Common.Result.{Result, ok, err}
use nise_and_go.Secure.Source.{SecureError, invalid_deployment, preload_reduced}
use nise_and_go.Secure.Directive.{
  Directive, default_src, script_src, render, Features, render_permissions,
}
use nise_and_go.Secure.Span.{whole_seconds}
use nise_and_go.Secure.Builder.{
  Deployment, development, production, Profile, document, api, Builder, Waiver,
  referrer_same_origin, resource_same_origin,
}
use nise_and_go.Secure.Options.{PolicyOption, apply_options}

abbrev pub default_hsts_max_age : Duration
default_hsts_max_age = pos (365 * (24 * hour))

pub record Policy : Type 0 where
  pub built : Bool
  pub deployment : Deployment
  pub report_only : Bool
  pub directives : List Directive
  pub csp_no_nonce : Bytes
  pub nonce_enabled : Bool
  pub hsts : Bytes
  pub referrer : Bytes
  pub coop : Bytes
  pub corp : Bytes
  pub coep : Bytes
  pub permissions : Bytes
  pub frame_option : Bytes
  pub waivers : List Waiver

-- `p` is not nil.
unfoldable pub policy_valid : Policy → Bool
policy_valid p = p.built && (str_eq p.deployment development || str_eq p.deployment production)

abbrev pub default_permissions : Features
default_permissions =
    (codes "accelerometer", [])
    ∷ (codes "ambient-light-sensor", [])
    ∷ (codes "autoplay", [])
    ∷ (codes "battery", [])
    ∷ (codes "browsing-topics", [])
    ∷ (codes "camera", [])
    ∷ (codes "display-capture", [])
    ∷ (codes "encrypted-media", [])
    ∷ (codes "fullscreen", codes "self" ∷ [])
    ∷ (codes "geolocation", [])
    ∷ (codes "gyroscope", [])
    ∷ (codes "idle-detection", [])
    ∷ (codes "local-fonts", [])
    ∷ (codes "magnetometer", [])
    ∷ (codes "microphone", [])
    ∷ (codes "midi", [])
    ∷ (codes "payment", [])
    ∷ (codes "publickey-credentials-get", [])
    ∷ (codes "screen-wake-lock", [])
    ∷ (codes "serial", [])
    ∷ (codes "usb", [])
    ∷ (codes "xr-spatial-tracking", [])
    ∷ []

abbrev pub self_source : Bytes
self_source = codes "'self'"

abbrev pub none_source : Bytes
none_source = codes "'none'"

-- A list that only a document policy starts with.
abbrev document_list : Profile → List Bytes → List Bytes
document_list document sources = sources
document_list api sources = []

-- The builder before any option.
unfoldable pub new_builder : Profile → Deployment → Builder
new_builder p d = record {
  deployment = d;
  profile = p;
  connect_src = document_list p (self_source ∷ []);
  font_src = document_list p (self_source ∷ []);
  form_action = document_list p (self_source ∷ []);
  frame_ancestors = document_list p (none_source ∷ []);
  img_src = document_list p (self_source ∷ codes "data:" ∷ []);
  script_src = document_list p (self_source ∷ []);
  style_src = document_list p (self_source ∷ []);
  inline_style_attr = false;
  report_only = false;
  report_uri = [];
  hsts_max_age = if str_eq d production then default_hsts_max_age else pos 0;
  hsts_include_subdomains = str_eq d production;
  hsts_preload = false;
  referrer = referrer_same_origin;
  coop = codes "same-origin";
  corp = resource_same_origin;
  coep = [];
  permissions = default_permissions;
  waivers = [];
  errs = [];
}

abbrev directive : Bytes → List Bytes → Directive
directive name sources = record { name = name; sources = sources }

abbrev only_none : List Bytes
only_none = none_source ∷ []

-- The directives of a profile, in the order in which `build` lists them.
unfoldable pub profile_directives : Profile → Builder → List Directive
profile_directives document b =
    directive default_src only_none
    ∷ directive (codes "base-uri") only_none
    ∷ directive (codes "connect-src") b.connect_src
    ∷ directive (codes "font-src") b.font_src
    ∷ directive (codes "form-action") b.form_action
    ∷ directive (codes "frame-ancestors") b.frame_ancestors
    ∷ directive (codes "img-src") b.img_src
    ∷ directive (codes "object-src") only_none
    ∷ directive script_src b.script_src
    ∷ directive (codes "style-src") b.style_src
    ∷ (if b.inline_style_attr
        then directive (codes "style-src-attr") (codes "'unsafe-inline'" ∷ []) ∷ []
        else [])
profile_directives api b =
    directive default_src only_none
    ∷ directive (codes "base-uri") only_none
    ∷ directive (codes "form-action") only_none
    ∷ directive (codes "frame-ancestors") only_none
    ∷ directive (codes "sandbox") []
    ∷ []

unfoldable pub build_directives : Builder → List Directive
unfolding profile_directives
build_directives b =
    profile_directives b.profile b
    ++ (if is_empty b.report_uri
        then []
        else directive (codes "report-uri") (b.report_uri ∷ []) ∷ [])

unfoldable pub build_hsts : Builder → Bytes
unfolding decimal whole_seconds
build_hsts b =
    if ltb_ℤ (pos 0) b.hsts_max_age
    then codes "max-age="
      ++ (decimal (whole_seconds b.hsts_max_age)
          ++ ((if b.hsts_include_subdomains then codes "; includeSubDomains" else [])
              ++ (if b.hsts_preload then codes "; preload" else [])))
    else []

abbrev is_none_only : List Bytes → Bool
is_none_only [] = false
is_none_only (s ∷ []) = str_eq s none_source
is_none_only (s ∷ t ∷ ss) = false

unfoldable pub build_frame_option : Builder → Bytes
build_frame_option b = elim b.profile [
  | document ↦ if is_none_only b.frame_ancestors then codes "DENY" else []
  | api ↦ codes "DENY"
]

-- The loop that looks for a script-src.
unfoldable pub has_script_src : List Directive → Bool
has_script_src [] = false
has_script_src (d ∷ ds) = str_eq d.name script_src || has_script_src ds

-- The last check of `build`, and the policy.
unfoldable pub preload_reduced_by : Builder → Bool
preload_reduced_by b =
    b.hsts_preload
    && ltb_ℤ (pos 0) b.hsts_max_age
    && (ltb_ℤ b.hsts_max_age default_hsts_max_age || not b.hsts_include_subdomains)

unfoldable pub built_policy : Builder → Policy
unfolding build_directives build_hsts build_frame_option has_script_src render render_permissions
built_policy b = record {
  built = true;
  deployment = b.deployment;
  report_only = b.report_only;
  directives = build_directives b;
  csp_no_nonce = render (build_directives b);
  nonce_enabled = has_script_src (build_directives b);
  hsts = build_hsts b;
  referrer = b.referrer;
  coop = b.coop;
  corp = b.corp;
  coep = b.coep;
  permissions = render_permissions b.permissions;
  frame_option = build_frame_option b;
  waivers = b.waivers;
}

unfoldable pub build : Builder → Result (List SecureError) Policy
unfolding preload_reduced_by built_policy
build b = if preload_reduced_by b then err (preload_reduced ∷ []) else ok (built_policy b)

-- Several errors are joined.
unfoldable pub new_policy :
    Profile → Deployment → List (Option PolicyOption) → Result (List SecureError) Policy
unfolding new_builder apply_options build
new_policy p d opts =
    if not (str_eq d development) && not (str_eq d production)
    then err (invalid_deployment d ∷ [])
    else let b = apply_options opts (new_builder p d) in
      if is_empty b.errs then build b else err b.errs

abbrev pub new_document_policy :
    Deployment → List (Option PolicyOption) → Result (List SecureError) Policy
new_document_policy d opts = new_policy document d opts

abbrev pub new_api_policy :
    Deployment → List (Option PolicyOption) → Result (List SecureError) Policy
new_api_policy d opts = new_policy api d opts
