-- ===== src/Secure/Examples.antt =====
-- Security policies on concrete options, and the theorems at them.
use nise_and_go.Base64.{decode_padded}
use nise_and_go.Common.Affix.{has_prefix, trim_left, trim_right, to_lower}
use nise_and_go.Common.Space.{trim_space}
use nise_and_go.Common.{◌⊎◌, ◌≡◌, refl, true, false, List, [], ◌∷◌, Option, some}
use nise_and_go.Common.Text.{all_of, str_eq, Bytes, codes, All}
use nise_and_go.Common.{map, ◌⊎◌}
use nise_and_go.Common.Affix.{to_lower}
use nise_and_go.Common.Space.{trim_space}
use nise_and_go.Secure.Response.{
  Header, Call, Writer, ask_nonce, write_header, set, del, write, middleware,
  header_referrer_policy, header_hsts, new_nonce,
}
use nise_and_go.Secure.Response.Committed.{Guarded, ended}
use nise_and_go.Secure.Response.Served.{served-Guarded}
use nise_and_go.Secure.Directive.Parse.{parse_csp}
use nise_and_go.Secure.Directive.{Directive, sort_directives, with_nonce, render_with_nonce}
use nise_and_go.Secure.Policy.Built.{new_policy_safe, new_policy_reads_back}
use nise_and_go.Secure.Policy.Transport.{AsksForHttps, new_policy_hsts}
use nise_and_go.Secure.Policy.Strict.{Unweakened, no_waivers-Unweakened, new_policy-Reasoned}
use nise_and_go.Secure.Options.Reasons.{Reasoned}
use nise_and_go.Common.Int.{pos}
use nise_and_go.Common.Keys.{contains}
use nise_and_go.Common.Result.{ok, err}
use nise_and_go.Secure.Source.{
  valid_source, unsafe_keywords, empty_reason, unusable_source, normalize_hash,
}
use nise_and_go.Secure.Directive.{Directive}
use nise_and_go.Secure.Builder.{document, production}
use nise_and_go.Secure.Options.{
  allow_report_only, allow_reduced_hsts, PolicyOption, apply_options, with_hsts_preload,
  allow_image_sources, with_script_hashes,
}
use nise_and_go.Secure.Policy.{Policy, new_policy, built_policy, new_builder}

abbrev image_options : List (Option PolicyOption)
image_options =
    some with_hsts_preload
    ∷ some (allow_image_sources (codes "logos") (codes "https://cdn.example" ∷ []))
    ∷ []

abbrev image_policy : Policy
image_policy = built_policy (apply_options image_options (new_builder document production))

image_policy_accepted : new_policy document production image_options ≡ ok image_policy
unfolding new_policy str_eq trim_space all_of to_lower
image_policy_accepted = refl

abbrev strict_options : List (Option PolicyOption)
strict_options =
    some (with_script_hashes (codes "sha256-47DEQpj8HBSa+/TImW+5JCeuQeRkm5NMpJWZG3hSuFU=" ∷ []))
    ∷ []

abbrev strict_policy : Policy
strict_policy = built_policy (apply_options strict_options (new_builder document production))

strict_policy_accepted : new_policy document production strict_options ≡ ok strict_policy
unfolding new_policy str_eq trim_right trim_left trim_space all_of to_lower has_prefix decode_padded
strict_policy_accepted = refl

injected :
    new_policy document production
      (some (allow_image_sources (codes "x") (codes "https://a; script-src *" ∷ [])) ∷ [])
    ≡ err (unusable_source (codes "https://a; script-src *") ∷ [])
unfolding new_policy str_eq trim_space all_of
injected = refl

no_reason :
    new_policy document production (some (allow_report_only (codes "  ")) ∷ [])
    ≡ err (empty_reason (codes "content-security-policy") (codes "report-only, not enforced") ∷ [])
unfolding new_policy str_eq trim_space
no_reason = refl

-- A maximal age below a second leaves no second in the header, which asks a browser to forget the rule.
abbrev short_options : List (Option PolicyOption)
short_options = some (allow_reduced_hsts (codes "rollout") (pos 500_000_000) true) ∷ []

short_age :
    (built_policy (apply_options short_options (new_builder document production))).hsts
    ≡ codes "max-age=0; includeSubDomains"
unfolding built_policy apply_options str_eq new_builder trim_space
short_age = refl

abbrev any_header : Header
any_header name = codes "weak" ∷ []

-- A handler that asks for a nonce, sends an early hint, weakens a header, and writes.
abbrev weakening : List (Call image_policy)
weakening =
    ask_nonce (1 ∷ 2 ∷ 3 ∷ [])
    ∷ write_header 103
    ∷ set header_referrer_policy (codes "unsafe-url")
    ∷ del header_hsts
    ∷ write
    ∷ []

served-Guarded_example :
    (w : Writer) × (middleware image_policy true any_header weakening ≡ some w)
    × All (Guarded image_policy) w.sent
    × (ended w.sent ≡ true)
served-Guarded_example =
    served-Guarded document production image_options image_policy any_header weakening
      image_policy_accepted

new_policy_reads_back_example :
    (parse_csp image_policy.csp_no_nonce ≡ sort_directives image_policy.directives)
    × (parse_csp (render_with_nonce image_policy.directives (new_nonce (1 ∷ 2 ∷ 3 ∷ [])))
        ≡ sort_directives (map (with_nonce (new_nonce (1 ∷ 2 ∷ 3 ∷ []))) image_policy.directives))
new_policy_reads_back_example =
    new_policy_reads_back document production image_options image_policy (1 ∷ 2 ∷ 3 ∷ [])
      image_policy_accepted

new_policy_safe_example :
    All
      (λ (x : Directive).
        (x.name ≡ codes "style-src-attr")
        ⊎ All (λ (s : Bytes). contains unsafe_keywords (to_lower s) ≡ false) x.sources)
      image_policy.directives
new_policy_safe_example =
    new_policy_safe document production image_options image_policy image_policy_accepted

no_waivers-Unweakened_example : Unweakened document production strict_policy
unfolding built_policy apply_options new_builder
no_waivers-Unweakened_example =
    no_waivers-Unweakened document production strict_options strict_policy strict_policy_accepted
      refl

new_policy-Reasoned_example : Reasoned image_policy.waivers
new_policy-Reasoned_example =
    new_policy-Reasoned document production image_options image_policy image_policy_accepted

new_policy_hsts_example :
    ((production ≡ production) × AsksForHttps image_policy.hsts)
    ⊎ ((str_eq production production ≡ false) × (image_policy.hsts ≡ []))
unfolding all_of
new_policy_hsts_example =
    new_policy_hsts document production image_options image_policy image_policy_accepted refl

abbrev plain_hash : Bytes
plain_hash = codes " sha256-47DEQpj8HBSa+/TImW+5JCeuQeRkm5NMpJWZG3hSuFU= "

abbrev canonical_hash : Bytes
canonical_hash = codes "'sha256-47DEQpj8HBSa+/TImW+5JCeuQeRkm5NMpJWZG3hSuFU='"

plain_hash_accepted : normalize_hash plain_hash ≡ ok canonical_hash
unfolding normalize_hash valid_source trim_right trim_left trim_space all_of contains str_eq
    to_lower has_prefix decode_padded
plain_hash_accepted = refl
