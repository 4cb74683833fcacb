-- ===== src/Secure/Directive.antt =====
-- runtime/secure/csp.go and policy.go: the text of the Content-Security-Policy and of the
-- Permissions-Policy. A Go map from features to allowlists is the list of its entries.
pub mod Parse
pub mod Order
use nise_and_go.Common.{
  ◌≡◌, refl, Bool, true, false, not, List, [], ◌∷◌, ◌++◌, Option, none, some, map, if◌then◌else◌,
}
use nise_and_go.Common.Text.{Bytes, codes, str_eq, str_lt}
use nise_and_go.Common.Affix.{join_text}
use nise_and_go.Common.Keys.{sort}

pub record Directive : Type 0 where
  pub name : Bytes
  pub sources : List Bytes

abbrev pub default_src : Bytes
default_src = codes "default-src"

abbrev pub script_src : Bytes
script_src = codes "script-src"

-- The order of `render`: the fallback first, then by name.
unfoldable pub before_directive : Directive → Directive → Bool
before_directive d e =
    if str_eq d.name default_src
    then not (str_eq e.name default_src)
    else if str_eq e.name default_src
    then false
    else str_lt d.name e.name

-- `sort.SliceStable` with that order.
unfoldable pub insert_directive : Directive → List Directive → List Directive
unfolding before_directive
insert_directive d [] = d ∷ []
insert_directive d (e ∷ es) =
    let rest = insert_directive d es in if before_directive e d then e ∷ rest else d ∷ e ∷ es

unfoldable pub sort_directives : List Directive → List Directive
unfolding insert_directive
sort_directives [] = []
sort_directives (d ∷ ds) = insert_directive d (sort_directives ds)

unfoldable pub render_sources : List Bytes → Bytes
render_sources [] = []
render_sources (s ∷ ss) = b' ' ∷ s ++ render_sources ss

abbrev pub render_directive : Directive → Bytes
render_directive d = d.name ++ render_sources d.sources

unfoldable pub render : List Directive → Bytes
unfolding sort_directives render_sources join_text
render ds = join_text (codes "; ") (map render_directive (sort_directives ds))

abbrev pub nonce_source : Bytes → Bytes
nonce_source nonce = codes "'nonce-" ++ (nonce ++ codes "'")

-- One directive with the nonce.
unfoldable pub with_nonce : Bytes → Directive → Directive
with_nonce nonce d =
    if str_eq d.name script_src
    then record { name = d.name; sources = d.sources ++ nonce_source nonce ∷ [] }
    else d

unfoldable pub render_with_nonce : List Directive → Bytes → Bytes
unfolding with_nonce render
render_with_nonce ds nonce = render (map (with_nonce nonce) ds)

abbrev pub Features : Type 0
Features = List (Bytes × List Bytes)

-- `features[name]`, which is empty for a missing name.
unfoldable pub allowlist : Features → Bytes → List Bytes
allowlist [] name = []
allowlist ((f, items) ∷ fs) name = if str_eq f name then items else allowlist fs name

-- `features[name] = items`
unfoldable pub set_allowlist : Features → Bytes → List Bytes → Features
set_allowlist [] name items = (name, items) ∷ []
set_allowlist ((f, old) ∷ fs) name items =
    let rest = set_allowlist fs name items in
    if str_eq f name then (f, items) ∷ fs else (f, old) ∷ rest

abbrev pub names : Features → List Bytes
names [] = []
names ((f, items) ∷ fs) = f ∷ names fs

abbrev pub render_feature : Bytes → List Bytes → Bytes
render_feature name items = name ++ (codes "=(" ++ (join_text (codes " ") items ++ codes ")"))

unfoldable pub render_permissions : Features → Bytes
unfolding join_text allowlist
render_permissions features =
    join_text (codes ", ") (
      map (λ (name : Bytes). render_feature name (allowlist features name)) (sort (names features)))

abbrev example_directives : List Directive
example_directives =
    record { name = codes "sandbox"; sources = [] }
    ∷ record { name = script_src; sources = codes "'self'" ∷ [] }
    ∷ record { name = default_src; sources = codes "'none'" ∷ [] }
    ∷ []

render_runs :
    render_with_nonce example_directives (codes "abc")
    ≡ codes "default-src 'none'; sandbox; script-src 'self' 'nonce-abc'"
unfolding render_with_nonce str_eq str_lt
render_runs = refl
