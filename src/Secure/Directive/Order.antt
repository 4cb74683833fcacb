-- ===== src/Secure/Directive/Order.antt =====
-- The text of a Permissions-Policy does not depend on the order in which a Go map is walked.
use nise_and_go.Common.{◌≡◌, refl, ap, ◌∙◌, List, [], ◌∷◌, map}
use nise_and_go.Common.Text.{Bytes, codes}
use nise_and_go.Common.Affix.{join_text}
use nise_and_go.Common.Keys.{contains, Distinct, sort, sort-eq}
use nise_and_go.Secure.Directive.{Features, names, allowlist, render_feature, render_permissions}

map-ext : {A B : Type 0} (f g : A → B) (l : List A) → ((x : A) → f x ≡ g x) → map f l ≡ map g l
map-ext f g [] h = refl
map-ext f g (x ∷ l) h = cc (h x, map-ext f g l h)

-- Two listings of the same map, each with every key once, are rendered alike.
pub render_permissions-order :
    (fs gs : Features)
    → Distinct (names fs)
    → Distinct (names gs)
    → ((name : Bytes) → contains (names fs) name ≡ contains (names gs) name)
    → ((name : Bytes) → allowlist fs name ≡ allowlist gs name)
    → render_permissions fs ≡ render_permissions gs
unfolding render_permissions
render_permissions-order fs gs d e h k = ap (join_text (codes ", ")) (
    map-ext (λ (n : Bytes). render_feature n (allowlist fs n))
      (λ (n : Bytes). render_feature n (allowlist gs n)) (sort (names fs))
      (λ (n : Bytes). ap (render_feature n) (k n))
    ∙ ap (map (λ (n : Bytes). render_feature n (allowlist gs n)))
        (sort-eq (names fs) (names gs) d e h))
