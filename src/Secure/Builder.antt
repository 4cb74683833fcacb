-- ===== src/Secure/Builder.antt =====
-- runtime/secure/deployment.go and policy.go: the deployments, the closed sets of values, waivers, and
-- the builder that the options change.
use nise_and_go.Common.{Bool, ◌||◌, not, List, [], ◌∷◌, ◌++◌, if◌then◌else◌}
use nise_and_go.Common.Clock.{Duration}
use nise_and_go.Common.Text.{Bytes, codes, str_eq, is_empty}
use nise_and_go.Common.Space.{trim_space}
use nise_and_go.Common.Keys.{contains}
use nise_and_go.Common.Result.{Result, ok, err}
use nise_and_go.Secure.Source.{
  SecureError, invalid_deployment, empty_reason, document_only_option, no_sources, valid_source,
}
use nise_and_go.Secure.Directive.{Features}

abbrev pub Deployment : Type 0
Deployment = Bytes

abbrev pub development : Deployment
development = codes "development"

abbrev pub production : Deployment
production = codes "production"

unfoldable pub parse_deployment : Bytes → Result SecureError Deployment
parse_deployment raw =
    if str_eq raw development || str_eq raw (codes "test")
    then ok development
    else if str_eq raw production
    then ok production
    else err (invalid_deployment raw)

abbrev pub ReferrerPolicy : Type 0
ReferrerPolicy = Bytes

abbrev pub referrer_no_referrer : ReferrerPolicy
referrer_no_referrer = codes "no-referrer"

abbrev pub referrer_same_origin : ReferrerPolicy
referrer_same_origin = codes "same-origin"

-- The values that send something to another origin.
abbrev pub leaking_referrers : List ReferrerPolicy
leaking_referrers =
    codes "strict-origin"
    ∷ codes "strict-origin-when-cross-origin"
    ∷ codes "origin-when-cross-origin"
    ∷ codes "origin"
    ∷ codes "unsafe-url"
    ∷ []

unfoldable pub leaks_referrer_cross_origin : ReferrerPolicy → Bool
leaks_referrer_cross_origin p = not (str_eq p referrer_no_referrer || str_eq p referrer_same_origin)

unfoldable pub referrer_valid : ReferrerPolicy → Bool
unfolding contains
referrer_valid p =
    str_eq p referrer_no_referrer || str_eq p referrer_same_origin || contains leaking_referrers p

abbrev pub ResourcePolicy : Type 0
ResourcePolicy = Bytes

abbrev pub resource_same_origin : ResourcePolicy
resource_same_origin = codes "same-origin"

abbrev pub resource_same_site : ResourcePolicy
resource_same_site = codes "same-site"

abbrev pub resource_cross_origin : ResourcePolicy
resource_cross_origin = codes "cross-origin"

abbrev pub EmbedderPolicy : Type 0
EmbedderPolicy = Bytes

abbrev pub embedder_require_corp : EmbedderPolicy
embedder_require_corp = codes "require-corp"

abbrev pub embedder_credentialless : EmbedderPolicy
embedder_credentialless = codes "credentialless"

pub record Waiver : Type 0 where
  pub control : Bytes
  pub detail : Bytes
  pub reason : Bytes

pub data Profile : Type 0 where
  document api : Profile

-- What the options accumulate.
pub record Builder : Type 0 where
  pub deployment : Deployment
  pub profile : Profile
  pub connect_src : List Bytes
  pub font_src : List Bytes
  pub form_action : List Bytes
  pub frame_ancestors : List Bytes
  pub img_src : List Bytes
  pub script_src : List Bytes
  pub style_src : List Bytes
  pub inline_style_attr : Bool
  pub report_only : Bool
  pub report_uri : Bytes
  pub hsts_max_age : Duration
  pub hsts_include_subdomains : Bool
  pub hsts_preload : Bool
  pub referrer : ReferrerPolicy
  pub coop : Bytes
  pub corp : ResourcePolicy
  pub coep : EmbedderPolicy
  pub permissions : Features
  pub waivers : List Waiver
  pub errs : List SecureError

abbrev pub fail : Builder → SecureError → Builder
fail b e = record b { errs = b.errs ++ e ∷ [] }

unfoldable pub waive : Builder → Bytes → Bytes → Bytes → Builder
waive b control detail reason =
    if is_empty (trim_space reason) then fail b (empty_reason control detail) else record b {
      waivers = b.waivers ++ record { control = control; detail = detail; reason = reason } ∷ [];
    }

-- A change that only a document policy takes; `documentOnly` and the return that follows it.
abbrev pub on_document : Builder → Bytes → (Builder → Builder) → Builder
on_document b option change = elim b.profile [
  | document ↦ change b
  | api ↦ fail b (document_only_option option)
]

-- The accepted sources are appended to `dst`, the errors of the others to `errs`.
unfoldable pub add_source_loop :
    List Bytes → List Bytes → List SecureError → List Bytes × List SecureError
unfolding valid_source
add_source_loop [] dst errs = (dst, errs)
add_source_loop (s ∷ sources) dst errs = elim (valid_source s) [
  | err e ↦ add_source_loop sources dst (errs ++ e ∷ [])
  | ok _ ↦ add_source_loop sources (dst ++ s ∷ []) errs
]

unfoldable pub add_sources :
    List Bytes → List Bytes → List SecureError → List Bytes × List SecureError
unfolding add_source_loop
add_sources dst sources errs =
    if is_empty sources then (dst, errs ++ no_sources ∷ []) else add_source_loop sources dst errs
