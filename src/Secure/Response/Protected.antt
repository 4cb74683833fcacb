-- ===== src/Secure/Response/Protected.antt =====
-- What the server sends: every block of headers carries the policy, whatever the handler does.
use nise_and_go.Common.{◌≡◌, List, [], ◌∷◌, arith, if◌then◌else◌}
use nise_and_go.Common.Text.{Bytes, codes, str_eq, is_empty}
use nise_and_go.Secure.Directive.{render_with_nonce}
use nise_and_go.Secure.Policy.{Policy}
use nise_and_go.Secure.Response.{
  Header, set_header, del_header, header_csp, header_csp_report_only, header_hsts,
  header_content_type_options, header_referrer_policy, header_coop, header_corp, header_coep,
  header_permissions_policy, header_frame_options, csp_header_name, NonceState, minted, apply_csp,
  set_or_del, apply_policy_headers,
}

-- A header that is sent if the policy has a value for it.
abbrev pub optional : Bytes → List Bytes
optional value = if is_empty value then [] else value ∷ []

-- The policy's own headers, and the one Content-Security-Policy: the policy's, or the one that names
-- the nonce, which is then marked as not to be stored.
pub record Protects (p : Policy) (n : NonceState) (h : Header) : Type 0 where
  pub csp :
      h (csp_header_name p)
      ≡ (if is_empty n.value then p.csp_no_nonce else render_with_nonce p.directives n.value) ∷ []
  pub one_csp : h (if p.report_only then header_csp else header_csp_report_only) ≡ []
  pub hsts : h header_hsts ≡ optional p.hsts
  pub nosniff : h header_content_type_options ≡ codes "nosniff" ∷ []
  pub referrer : h header_referrer_policy ≡ p.referrer ∷ []
  pub opener : h header_coop ≡ p.coop ∷ []
  pub resources : h header_corp ≡ p.corp ∷ []
  pub embedder : h header_coep ≡ optional p.coep
  pub permissions : h header_permissions_policy ≡ p.permissions ∷ []
  pub framing : h header_frame_options ≡ optional p.frame_option

pub apply-Protects :
    (p : Policy) (n : NonceState) (h : Header) → Protects p n (apply_policy_headers p n h)
unfolding apply_policy_headers apply_csp csp_header_name minted set_or_del set_header del_header
    str_eq
apply-Protects p n h = record {
  csp = ground arith;
  one_csp = ground arith;
  hsts = ground arith;
  nosniff = ground arith;
  referrer = ground arith;
  opener = ground arith;
  resources = ground arith;
  embedder = ground arith;
  permissions = ground arith;
  framing = ground arith;
}
