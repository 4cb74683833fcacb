-- ===== src/Secure/Response/Served.antt =====
-- An accepted policy in front of a handler.
use nise_and_go.Common.{
  ◌≡◌, refl, sym, ap, ◌∙◌, ◌⊎◌, inl, inr, true, ◌||◌, List, Option, some, arith, subst,
}
use nise_and_go.Common.Text.{str_eq, str_eq_refl, All}
use nise_and_go.Common.Result.{ok}
use nise_and_go.Secure.Builder.{Deployment, development, production, Profile}
use nise_and_go.Secure.Options.{PolicyOption, apply_options}
use nise_and_go.Secure.Policy.{Policy, new_policy, built_policy, new_builder, policy_valid}
use nise_and_go.Secure.Policy.Built.{new_policy-built}
use nise_and_go.Secure.Policy.Strict.{built_kept, all_above_nothing}
use nise_and_go.Secure.Response.{Header, Writer, Call, middleware, serve, start, finish}
use nise_and_go.Secure.Response.Committed.{Guarded, ended, middleware-Guarded}

named_valid :
    (d : Deployment)
    → (d ≡ development) ⊎ (d ≡ production)
    → (str_eq d development || str_eq d production) ≡ true
named_valid d (inl e) = rw e (ground (arith, str_eq_refl development))
named_valid d (inr e) = rw e (ground (arith, str_eq_refl production))

new_policy-valid :
    (prof : Profile) (d : Deployment) (opts : List (Option PolicyOption)) (p : Policy)
    → new_policy prof d opts ≡ ok p
    → policy_valid p ≡ true
unfolding policy_valid built_policy
new_policy-valid prof d opts p e =
    let (same, clean, preload, deployed) = new_policy-built prof d opts p e in
    let b = apply_options opts (new_builder prof d) in
    subst (λ (q : Policy). policy_valid q ≡ true) (sym same)
      (ap (λ (x : Deployment). str_eq x development || str_eq x production)
          (built_kept 0 prof d opts refl (all_above_nothing opts)).0
        ∙ named_valid d deployed)

runs :
    (p : Policy) (h : Header) (calls : List (Call p))
    → policy_valid p ≡ true
    → middleware p true h calls ≡ some (finish p (serve p calls (start p true h)))
unfolding middleware
runs p h calls v = rw v refl

-- With an accepted policy the middleware starts, and whatever the handler does and whatever the header map
-- held before, every block of headers that goes out carries exactly the policy's values, names a nonce
-- only if the policy has a script-src, and some block ends the header. The server can be flushed.
pub served-Guarded :
    (prof : Profile) (d : Deployment) (opts : List (Option PolicyOption)) (p : Policy) (h : Header)
    (calls : List (Call p))
    → new_policy prof d opts ≡ ok p
    → (w : Writer) × (middleware p true h calls ≡ some w)
      × All (Guarded p) w.sent
      × (ended w.sent ≡ true)
served-Guarded prof d opts p h calls e =
    let w = finish p (serve p calls (start p true h)) in
    let m = runs p h calls (new_policy-valid prof d opts p e) in
    let (g, f) = middleware-Guarded p h calls w m in (w, m, g, f)
