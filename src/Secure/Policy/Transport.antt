-- ===== src/Secure/Policy/Transport.antt =====
-- The Strict-Transport-Security of a policy.
use nise_and_go.Common.{
  ◌-◌, ◌+◌, ◌/◌, ◌≤◌, ◌<◌, Bool-cases, ℕ, ◌≡◌, refl, ap, ◌∙◌, ◌⊎◌, inl, inr, Bool, true, false,
  List, [], ◌++◌, Option, arith, if◌then◌else◌,
}
use nise_and_go.Common.Text.{all_of, Bytes, codes, str_eq, str_eq-eq}
use nise_and_go.Common.Affix.{decimal}
use nise_and_go.Common.Result.{ok}
use nise_and_go.Secure.Builder.{Deployment, production, Profile, Builder}
use nise_and_go.Secure.Options.{PolicyOption, apply_options}
use nise_and_go.Secure.Options.Reasons.{given_above}
use nise_and_go.Secure.Span.{whole_seconds}
use nise_and_go.Common.Int.{pos, negsuc, ltb_ℤ}
use nise_and_go.Common.Clock.{second}
use nise_and_go.Secure.Policy.{Duration, Policy, new_policy, built_policy, new_builder, build_hsts}
use nise_and_go.Secure.Policy.Built.{new_policy-built}
use nise_and_go.Secure.Policy.Strict.{built_kept, all_above_nothing}
use nise_and_go.Common.{◌-◌, ◌+◌, ◌/◌, ◌≤◌, ◌<◌, ◌⊎◌, inr, inl, Bool-cases}
use nise_and_go.Common.Int.{pos, negsuc, ltb_ℤ}
use nise_and_go.Common.Clock.{second}
use nise_and_go.Secure.Span.{whole_seconds}

rounded : (up : Bool) (n : ℕ) → 0 < n → 0 < (if up then n + 1 else n)
rounded true n h = omega arith
rounded false n h = h

whole_seconds-positive :
    (age : Duration) → ltb_ℤ (pos (second - 1)) age ≡ true → 0 < whole_seconds age
unfolding whole_seconds
whole_seconds-positive (pos n) h =
    let long : second ≤ n = ground (arith, h) in rounded _ (n / second) (omega (arith, long))
whole_seconds-positive (negsuc n) h = ground (arith, h)

hsts-text :
    (b : Builder)
    → ltb_ℤ (pos 0) b.hsts_max_age ≡ true
    → build_hsts b
      ≡ codes "max-age="
        ++ (decimal (whole_seconds b.hsts_max_age)
            ++ ((if b.hsts_include_subdomains then codes "; includeSubDomains" else [])
                ++ (if b.hsts_preload then codes "; preload" else [])))
unfolding build_hsts
hsts-text b h = rw h refl

hsts-none : (b : Builder) → ltb_ℤ (pos 0) b.hsts_max_age ≡ false → build_hsts b ≡ []
unfolding build_hsts
hsts-none b h = rw h refl

-- A header that makes a browser use HTTPS for at least a second.
abbrev pub AsksForHttps : Bytes → Type 0
AsksForHttps header =
    (seconds : ℕ) × (subdomains : Bool) × (preload : Bool) × (header
      ≡ codes "max-age="
        ++ (decimal seconds
            ++ ((if subdomains then codes "; includeSubDomains" else [])
                ++ (if preload then codes "; preload" else []))))
    × (0 < seconds)

-- An accepted production policy sends Strict-Transport-Security with a maximal age that is not zero, and no
-- other policy sends it. The ages given to AllowReducedHSTS, as far as they are not refused, are a second
-- at least.
pub new_policy_hsts :
    (prof : Profile) (d : Deployment) (opts : List (Option PolicyOption)) (p : Policy)
    → new_policy prof d opts ≡ ok p
    → all_of (given_above (second - 1)) opts ≡ true
    → ((d ≡ production) × AsksForHttps p.hsts) ⊎ ((str_eq d production ≡ false) × (p.hsts ≡ []))
unfolding built_policy
new_policy_hsts prof d opts p e a =
    let b = apply_options opts (new_builder prof d) in
    let same : p.hsts ≡ build_hsts b =
      ap (λ (q : Policy). q.hsts) (new_policy-built prof d opts p e).0 in
    let long = (built_kept (second - 1) prof d opts refl a).1 in
    let shown = (built_kept 0 prof d opts refl (all_above_nothing opts)).1 in
    elim (Bool-cases (str_eq d production)) [
      | inl y ↦ inl (
        str_eq-eq d production y,
        (
          whole_seconds b.hsts_max_age,
          b.hsts_include_subdomains,
          b.hsts_preload,
          same ∙ hsts-text b (shown ∙ y),
          whole_seconds-positive b.hsts_max_age (long ∙ y),
        ),
      )
      | inr n ↦ inr (n, same ∙ hsts-none b (shown ∙ n))
    ]
