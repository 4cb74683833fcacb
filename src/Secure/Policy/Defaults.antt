-- ===== src/Secure/Policy/Defaults.antt =====
-- The protections that a policy without waivers has, spelled out.
use nise_and_go.Common.{
  subst, ◌≡◌, refl, ◌⊎◌, Bool, true, false, ◌&&◌, List, [], ◌∷◌, arith, if◌then◌else◌, if-intro,
}
use nise_and_go.Common.Text.{Bytes, codes, str_eq, str_eq-eq, is_empty, all_of}
use nise_and_go.Common.Keys.{contains}
use nise_and_go.Secure.Source.Hash.{IsHash}
use nise_and_go.Secure.Directive.{Directive, Features, allowlist}
use nise_and_go.Secure.Builder.{Profile, document, api}
use nise_and_go.Secure.Options.Honest.{Within}
use nise_and_go.Secure.Policy.{default_permissions}

abbrev row : Bytes → List Bytes → Directive
row name sources = record { name = name; sources = sources }

abbrev nobody : List Bytes
nobody = codes "'none'" ∷ []

abbrev same_site : List Bytes
same_site = codes "'self'" ∷ []

-- The default Content-Security-Policy of a profile, with what its scripts and styles may be.
abbrev pub default_csp : Profile → List Bytes → List Bytes → List Directive
default_csp document scripts styles =
    row (codes "default-src") nobody
    ∷ row (codes "base-uri") nobody
    ∷ row (codes "connect-src") same_site
    ∷ row (codes "font-src") same_site
    ∷ row (codes "form-action") same_site
    ∷ row (codes "frame-ancestors") nobody
    ∷ row (codes "img-src") (codes "'self'" ∷ codes "data:" ∷ [])
    ∷ row (codes "object-src") nobody
    ∷ row (codes "script-src") scripts
    ∷ row (codes "style-src") styles
    ∷ []
default_csp api scripts styles =
    row (codes "default-src") nobody
    ∷ row (codes "base-uri") nobody
    ∷ row (codes "form-action") nobody
    ∷ row (codes "frame-ancestors") nobody
    ∷ row (codes "sandbox") []
    ∷ []

abbrev pub report_directive : Bytes → List Directive
report_directive uri = if is_empty uri then [] else row (codes "report-uri") (uri ∷ []) ∷ []

-- A source of scripts or styles: this application, or the hash of an inline one.
abbrev pub Inline : Bytes → Type 0
Inline s = (s ≡ codes "'self'") ⊎ IsHash s

abbrev pub guarded_features : List Bytes
guarded_features =
    codes "accelerometer"
    ∷ codes "ambient-light-sensor"
    ∷ codes "autoplay"
    ∷ codes "battery"
    ∷ codes "browsing-topics"
    ∷ codes "camera"
    ∷ codes "display-capture"
    ∷ codes "encrypted-media"
    ∷ codes "fullscreen"
    ∷ codes "geolocation"
    ∷ codes "gyroscope"
    ∷ codes "idle-detection"
    ∷ codes "local-fonts"
    ∷ codes "magnetometer"
    ∷ codes "microphone"
    ∷ codes "midi"
    ∷ codes "payment"
    ∷ codes "publickey-credentials-get"
    ∷ codes "screen-wake-lock"
    ∷ codes "serial"
    ∷ codes "usb"
    ∷ codes "xr-spatial-tracking"
    ∷ []

-- Whom a feature may be granted to.
abbrev pub self_allowed : Bytes → List Bytes
self_allowed f = if str_eq f (codes "fullscreen") then codes "self" ∷ [] else []

-- Nobody has a feature, but for this origin that of fullscreen.
modest : Bytes × List Bytes → Bool
modest (f, []) = true
modest (f, x ∷ []) = str_eq f (codes "fullscreen") && str_eq x (codes "self")
modest (f, x ∷ y ∷ l) = false

modest-Within :
    (f : Bytes) (items : List Bytes) → modest (f, items) ≡ true → Within items (self_allowed f)
unfolding modest contains
modest-Within f [] h x m = cc
modest-Within f (y ∷ []) h x m = ground (arith, h, m, str_eq-eq y (codes "self"))
modest-Within f (y ∷ z ∷ items) h x m = cc

all_modest-Within :
    (fs : Features) (f : Bytes) → all_of modest fs ≡ true → Within (allowlist fs f) (self_allowed f)
unfolding all_of allowlist contains
all_modest-Within [] f h = λ x m. absurd (cc m)
all_modest-Within ((g, items) ∷ fs) f h =
    if-intro (λ (l : List Bytes). Within l (self_allowed f)) (str_eq g f) items (allowlist fs f)
      (λ e.
        subst (λ (n : Bytes). Within items (self_allowed n)) (str_eq-eq g f e)
          (modest-Within g items (ground (arith, h))))
      λ e. all_modest-Within fs f (ground (arith, h))

pub default_permissions-Within :
    (f : Bytes) → Within (allowlist default_permissions f) (self_allowed f)
unfolding all_of modest str_eq
default_permissions-Within f = all_modest-Within default_permissions f refl
