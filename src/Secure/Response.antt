-- ===== src/Secure/Response.antt =====
-- runtime/secure/nonce.go, middleware.go, and `apply` of policy.go, on top of a net/http server.
--
-- A header map is a function from names to the list of values. The server's own ResponseWriter keeps
-- what net/http documents: the first final status commits the header map as it then is, a status of
-- 1xx other than 101 sends it and commits nothing, writing a body or flushing commits with 200, and a
-- status out of range panics. Whether it can be flushed is a parameter, since a middleware outside
-- this one may hide the flusher.
pub mod Protected
pub mod Committed
pub mod Served
use nise_and_go.Common.{
  ℕ, Bool, true, false, ◌&&◌, ◌||◌, not, List, [], ◌∷◌, ◌++◌, Option, none, some, ltb, ◌==◌,
  if◌then◌else◌,
}
use nise_and_go.Common.Text.{Bytes, codes, str_eq, is_empty, between}
use nise_and_go.Common.Affix.{has_infix, to_lower}
use nise_and_go.Base64.{url, encode}
use nise_and_go.Secure.Directive.{render_with_nonce}
use nise_and_go.Secure.Policy.{Policy, policy_valid}

abbrev pub Header : Type 0
Header = Bytes → List Bytes

-- `h.Set(name, value)`, `h.Del(name)` and `h.Get(name)`
unfoldable pub set_header : Header → Bytes → Bytes → Header
set_header h name value k = if str_eq k name then value ∷ [] else h k

unfoldable pub del_header : Header → Bytes → Header
del_header h name k = if str_eq k name then [] else h k

unfoldable pub get_header : Header → Bytes → Bytes
get_header h name = elim (h name) [ [] ↦ [] | value ∷ _ ↦ value ]

abbrev pub header_csp : Bytes
header_csp = codes "Content-Security-Policy"

abbrev pub header_csp_report_only : Bytes
header_csp_report_only = codes "Content-Security-Policy-Report-Only"

abbrev pub header_hsts : Bytes
header_hsts = codes "Strict-Transport-Security"

abbrev pub header_content_type_options : Bytes
header_content_type_options = codes "X-Content-Type-Options"

abbrev pub header_referrer_policy : Bytes
header_referrer_policy = codes "Referrer-Policy"

abbrev pub header_coop : Bytes
header_coop = codes "Cross-Origin-Opener-Policy"

abbrev pub header_corp : Bytes
header_corp = codes "Cross-Origin-Resource-Policy"

abbrev pub header_coep : Bytes
header_coep = codes "Cross-Origin-Embedder-Policy"

abbrev pub header_permissions_policy : Bytes
header_permissions_policy = codes "Permissions-Policy"

abbrev pub header_frame_options : Bytes
header_frame_options = codes "X-Frame-Options"

abbrev pub header_cache_control : Bytes
header_cache_control = codes "Cache-Control"

unfoldable pub csp_header_name : Policy → Bytes
csp_header_name p = if p.report_only then header_csp_report_only else header_csp

-- The slot for a request's nonce; the empty text is none yet.
pub record NonceState : Type 0 where
  pub enabled : Bool
  pub value : Bytes

abbrev pub nonce_byte_length : ℕ
nonce_byte_length = 16

-- `random` is what the random source gives: `nonce_byte_length` bytes.
unfoldable pub new_nonce : Bytes → Bytes
unfolding encode
new_nonce random = encode url random

-- `Nonce` of a request that passed the middleware: the state after it, and the nonce if there is one.
unfoldable pub get_nonce : Bytes → NonceState → NonceState × Option Bytes
unfolding new_nonce
get_nonce random n =
    if not n.enabled
    then (n, none)
    else let value = if is_empty n.value then new_nonce random else n.value in
      (record n { value = value }, some value)

unfoldable pub minted : NonceState → Option Bytes
minted n = if is_empty n.value then none else some n.value

abbrev pub no_store : Bytes
no_store = codes "no-store"

-- The Content-Security-Policy, and no-store on a response that carries a nonce. Lower case beyond ASCII
-- makes no difference to whether the text no-store occurs.
unfoldable pub apply_csp : Policy → NonceState → Header → Header
unfolding minted set_header get_header csp_header_name
apply_csp p n h = elim (minted n) [
  | some nonce ↦
      let named = set_header h (csp_header_name p) (render_with_nonce p.directives nonce) in
      if has_infix (to_lower (get_header named header_cache_control)) no_store
      then named
      else set_header named header_cache_control no_store
  | none ↦ set_header h (csp_header_name p) p.csp_no_nonce
]

-- `if value != "" { h.Set(name, value) } else { h.Del(name) }`
unfoldable pub set_or_del : Header → Bytes → Bytes → Header
unfolding set_header del_header
set_or_del h name value = if is_empty value then del_header h name else set_header h name value

unfoldable pub apply_policy_headers : Policy → NonceState → Header → Header
unfolding apply_csp set_or_del set_header del_header
apply_policy_headers p n h0 =
    let h1 = apply_csp p n h0 in
    let h2 = del_header h1 (if p.report_only then header_csp else header_csp_report_only) in
    let h3 = set_or_del h2 header_hsts p.hsts in
    let h4 = set_header h3 header_content_type_options (codes "nosniff") in
    let h5 = set_header h4 header_referrer_policy p.referrer in
    let h6 = set_header h5 header_coop p.coop in
    let h7 = set_header h6 header_corp p.corp in
    let h8 = set_header h7 header_permissions_policy p.permissions in
    let h9 = set_or_del h8 header_coep p.coep in set_or_del h9 header_frame_options p.frame_option

-- What went out: a header block with its status, or the connection handed over with the block that
-- its new owner reads.
pub data Sent : Type 0 where
  informational final : ℕ → Header → Sent
  hijacked : Header → Sent

-- The middleware's `responseWriter`, and the server's writer under it.
pub record Writer : Type 0 where
  pub header : Header
  pub nonce : NonceState
  pub applied : Bool
  pub can_flush : Bool
  pub committed : Bool
  pub sent : List Sent

-- The server's writer: its WriteHeader with a valid status, its Write or Flush, and its Hijack.
unfoldable pub server_status : ℕ → Writer → Writer
server_status code w =
    if w.committed
    then w
    else if between 100 199 code && not (code == 101)
    then record w { sent = w.sent ++ informational code w.header ∷ [] }
    else record w { committed = true; sent = w.sent ++ final code w.header ∷ [] }

unfoldable pub server_commit : Writer → Writer
server_commit w =
    if w.committed
    then w
    else record w { committed = true; sent = w.sent ++ final 200 w.header ∷ [] }

unfoldable pub server_flush : Writer → Writer
unfolding server_commit
server_flush w = if w.can_flush then server_commit w else w

unfoldable pub server_hijack : Writer → Writer
server_hijack w = record w { committed = true; sent = w.sent ++ hijacked w.header ∷ [] }

module _ (p : Policy) where
  unfoldable pub apply_now : Writer → Writer
  unfolding apply_policy_headers
  apply_now w = record w { header = apply_policy_headers p w.nonce w.header }

  unfoldable pub apply_policy : Writer → Writer
  unfolding apply_now
  apply_policy w = if w.applied then w else apply_now (record w { applied = true })

  -- What a handler does with its writer and its request. `alter` is any other change of the header map, by
  -- `Add` or in place. A hijack succeeds or fails.
  pub data Call : Type 0 where
    set : Bytes → Bytes → Call
    del : Bytes → Call
    alter : (Header → Header) → Call
    write_header : ℕ → Call
    write flush : Call
    hijack : Bool → Call
    ask_nonce : Bytes → Call

  unfoldable pub write_status : ℕ → Writer → Writer
  unfolding apply_policy apply_now server_status
  write_status code w =
      if between 100 199 code && not (code == 101)
      then server_status code (apply_now w)
      else server_status code (apply_policy w)

  -- A call, and whether the handler goes on: a status out of range panics in the server's writer,
  -- unless the response is committed and the status is ignored.
  unfoldable pub call : Call → Writer → Writer × Bool
  unfolding write_status apply_policy apply_now server_commit server_flush server_hijack set_header
      del_header get_nonce
  call (set name value) w = (record w { header = set_header w.header name value }, true)
  call (del name) w = (record w { header = del_header w.header name }, true)
  call (alter change) w = (record w { header = change w.header }, true)
  call (write_header code) w =
      if between 100 999 code || w.committed
      then (write_status code w, true)
      else (apply_policy w, false)
  call write w = (server_commit (apply_policy w), true)
  call flush w = (server_flush (apply_policy w), true)
  call (hijack done) w =
      let now = apply_now w in
      (if done then record (server_hijack now) { applied = true } else now, true)
  call (ask_nonce random) w =
      let (n, _) = get_nonce random w.nonce in (record w { nonce = n }, true)

  -- The handler's calls, up to its end or its panic; false is a panic.
  unfoldable pub serve : List Call → Writer → Writer × Bool
  unfolding call
  serve [] w = (w, true)
  serve (c ∷ calls) w =
      let (after, goes_on) = call c w in
      let rest = serve calls after in if goes_on then rest else (after, false)

  abbrev pub start : Bool → Header → Writer
  start can_flush h = record {
    header = h;
    nonce = record { enabled = p.nonce_enabled; value = [] };
    applied = false;
    can_flush = can_flush;
    committed = false;
    sent = [];
  }

  -- What the server sends at last if nothing was: 200, or after a panic the 500 of a recovery outside. (A
  -- panic that nobody recovers sends nothing more.)
  unfoldable pub finish : Writer × Bool → Writer
  unfolding apply_policy server_commit server_status
  finish (w, ended) =
      let final_headers = apply_policy w in
      if ended then server_commit final_headers else server_status 500 final_headers

  -- The middleware around a handler, with its deferred call; `h` has what middleware outside this one
  -- set. `none` is the panic of `Middleware` itself.
  unfoldable pub middleware : Bool → Header → List Call → Option Writer
  unfolding policy_valid serve finish
  middleware can_flush h calls =
      if policy_valid p then some (finish (serve calls (start can_flush h))) else none
