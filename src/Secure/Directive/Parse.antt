-- ===== src/Secure/Directive/Parse.antt =====
-- A browser's reading of a Content-Security-Policy, and that the rendered one reads back as the
-- directives it was made of.
use nise_and_go.Common.{
  append-nil, append_assoc, ℕ, ◌≡◌, ◌≢◌, refl, sym, ap, ◌∙◌, true, false, List, [], ◌∷◌, ◌++◌,
  arith, ◌==◌, map, if◌then◌else◌, if-intro,
}
use nise_and_go.Common.Text.{
  Bytes, codes, is_empty, all_of, All, split, join, Lacks, split-join, split-part, split-last,
}
use nise_and_go.Common.Affix.{join_text}
use nise_and_go.Secure.Source.{source_byte}
use nise_and_go.Secure.Directive.{
  Directive, render_sources, render_directive, render, sort_directives, insert_directive,
  before_directive,
}

abbrev skip_space : Bytes → Bytes
skip_space [] = []
skip_space (c ∷ s) = if c == b' ' then s else c ∷ s

abbrev of_words : List Bytes → Directive
of_words [] = record { name = []; sources = [] }
of_words (w ∷ ws) = record { name = w; sources = ws }

-- The words of a directive are separated by a space; the first is its name.
unfoldable pub parse_directive : Bytes → Directive
parse_directive t = of_words (split b' ' (skip_space t))

-- Directives are separated by semicolons, with one space after it.
unfoldable pub parse_csp : Bytes → List Directive
unfolding parse_directive
parse_csp t = map parse_directive (split b';' t)

-- A word that cannot leave its place.
abbrev pub Word : Bytes → Type 0
Word s = (is_empty s ≡ false) × (all_of source_byte s ≡ true)

abbrev pub Plain : Directive → Type 0
Plain d = Word d.name × All Word d.sources

word-Lacks : (s : Bytes) → all_of source_byte s ≡ true → Lacks b';' s × Lacks b' ' s
unfolding all_of
word-Lacks [] h = (tt, tt)
word-Lacks (c ∷ s) h = ground (arith, h, word-Lacks s)

words-lack_space : (ws : List Bytes) → All Word ws → All (Lacks b' ') ws
words-lack_space [] h = tt
words-lack_space (w ∷ ws) h = ((word-Lacks w h.0.1).1, words-lack_space ws h.1)

render_sources-join :
    (name : Bytes) (ws : List Bytes) → name ++ render_sources ws ≡ join b' ' (name ∷ ws)
unfolding render_sources join
render_sources-join name [] = append-nil name
render_sources-join name (w ∷ ws) = ap (λ (x : Bytes). name ++ b' ' ∷ x) (render_sources-join w ws)

Lacks-append : (c : ℕ) (s t : Bytes) → Lacks c s → Lacks c t → Lacks c (s ++ t)
Lacks-append c [] t h k = k
Lacks-append c (x ∷ s) t h k = (h.0, Lacks-append c s t h.1 k)

space_apart : Lacks b';' (b' ' ∷ [])
space_apart = (omega arith, tt)

render_sources-Lacks : (ws : List Bytes) → All Word ws → Lacks b';' (render_sources ws)
unfolding render_sources
render_sources-Lacks [] h = tt
render_sources-Lacks (w ∷ ws) h = (
  space_apart.0,
  Lacks-append b';' w (render_sources ws) (word-Lacks w h.0.1).0 (render_sources-Lacks ws h.1),
)

parse_words : (d : Directive) → Plain d → of_words (split b' ' (render_directive d)) ≡ d
parse_words d h =
    ap (λ (t : Bytes). of_words (split b' ' t)) (render_sources-join d.name d.sources)
    ∙ ap of_words (
        split-join b' ' (d.name ∷ d.sources) (λ e. cc)
          ((word-Lacks d.name h.0.1).1, words-lack_space d.sources h.1))

skip-Word : (w t : Bytes) → Word w → skip_space (w ++ t) ≡ w ++ t
unfolding all_of
skip-Word [] t h = cc
skip-Word (c ∷ w) t h = ground (arith, h)

parse_first : (d : Directive) → Plain d → parse_directive (render_directive d) ≡ d
unfolding parse_directive
parse_first d h =
    ap (λ (t : Bytes). of_words (split b' ' t)) (skip-Word d.name (render_sources d.sources) h.0)
    ∙ parse_words d h

parse_next : (d : Directive) → Plain d → parse_directive (b' ' ∷ render_directive d) ≡ d
unfolding parse_directive
parse_next d h = parse_words d h

abbrev separator : Bytes
separator = codes "; "

-- The first part may stand behind something.
split_parts :
    (lead p : Bytes) (ps : List Bytes)
    → Lacks b';' lead
    → All (Lacks b';') (p ∷ ps)
    → split b';' (lead ++ join_text separator (p ∷ ps)) ≡ (lead ++ p) ∷ map (◌∷◌ b' ') ps
unfolding join_text
split_parts lead p [] l h = split-last b';' (lead ++ p) (Lacks-append b';' lead p l h.0)
split_parts lead p (q ∷ ps) l h =
    let rest = b' ' ∷ join_text separator (q ∷ ps) in
    ap (split b';') (sym (append_assoc lead p (b';' ∷ rest)))
    ∙ split-part b';' (lead ++ p) rest (Lacks-append b';' lead p l h.0)
    ∙ ap (◌∷◌ (lead ++ p)) (split_parts (b' ' ∷ []) q ps space_apart h.1)

rendered-Lacks : (ds : List Directive) → All Plain ds → All (Lacks b';') (map render_directive ds)
rendered-Lacks [] h = tt
rendered-Lacks (d ∷ ds) h = (
  Lacks-append b';' d.name (render_sources d.sources) (word-Lacks d.name h.0.0.1).0
      (render_sources-Lacks d.sources h.0.1),
  rendered-Lacks ds h.1,
)

parse_rest :
    (ds : List Directive)
    → All Plain ds
    → map parse_directive (map (◌∷◌ b' ') (map render_directive ds)) ≡ ds
parse_rest [] h = refl
parse_rest (d ∷ ds) h = cc (parse_next d h.0, parse_rest ds h.1)

parse_joined :
    (ds : List Directive)
    → ds ≢ []
    → All Plain ds
    → parse_csp (join_text separator (map render_directive ds)) ≡ ds
unfolding parse_csp
parse_joined [] n h = absurd (n refl)
parse_joined (d ∷ ds) n h =
    ap (map parse_directive)
      (split_parts [] (render_directive d) (map render_directive ds) tt (rendered-Lacks (d ∷ ds) h))
    ∙ cc (parse_first d h.0, parse_rest ds h.1)

insert-All :
    (P : Directive → Type 0) (d : Directive) (ds : List Directive)
    → P d
    → All P ds
    → All P (insert_directive d ds) × (insert_directive d ds ≢ [])
unfolding insert_directive
insert-All P d [] h k = ((h, tt), λ e. cc)
insert-All P d (e ∷ ds) h k =
    if-intro (λ (l : List Directive). All P l × (l ≢ [])) (before_directive e d)
      (e ∷ insert_directive d ds) (d ∷ e ∷ ds) (λ t. ((k.0, (insert-All P d ds h k.1).0), λ q. cc))
      λ t. ((h, k), λ q. cc)

pub sort_directives-All :
    (P : Directive → Type 0) (ds : List Directive) → All P ds → All P (sort_directives ds)
unfolding sort_directives
sort_directives-All P [] h = tt
sort_directives-All P (d ∷ ds) h =
    (insert-All P d (sort_directives ds) h.0 (sort_directives-All P ds h.1)).0

All-unit : (ds : List Directive) → All (λ (x : Directive). Unit {0}) ds
All-unit [] = tt
All-unit (d ∷ ds) = (tt, All-unit ds)

sort_directives-nonempty : (ds : List Directive) → ds ≢ [] → sort_directives ds ≢ []
unfolding sort_directives
sort_directives-nonempty [] n = absurd (n refl)
sort_directives-nonempty (d ∷ ds) n =
    (insert-All (λ (x : Directive). Unit {0}) d (sort_directives ds) tt
      (All-unit (sort_directives ds))).1

pub parse_csp-render :
    (ds : List Directive) → ds ≢ [] → All Plain ds → parse_csp (render ds) ≡ sort_directives ds
unfolding render
parse_csp-render ds n h =
    parse_joined (sort_directives ds) (sort_directives-nonempty ds n)
      (sort_directives-All Plain ds h)
