-- ===== src/Pagination/Request/Accepted.antt =====
-- Which page requests are accepted, and what pages come of them.
use nise_and_go.Common.{
  ℕ, ◌≤◌, ◌≡◌, ◌↔◌, ap, subst, inl, inr, Option, none, some, arith, length, Option-cases,
}
use nise_and_go.Common.Int.{ℤ, pos, ◌≤ℤ◌}
use nise_and_go.Common.Text.{Bytes, str_eq-eq}
use nise_and_go.Common.Result.{ok, Result-cases}
use nise_and_go.Pagination.Binding.{Binding}
use nise_and_go.Pagination.Cursor.{Codec, Cursor, Hmac, Json, forward, backward, decode_cursor}
use nise_and_go.Pagination.Decimal.{decimal_value, digits_in}
use nise_and_go.Pagination.Decimal.Spelling.{Spells, decimal_value_sound, decimal_value_complete}
use nise_and_go.Pagination.Decimal.Digits.{length-le-digits_in}
use nise_and_go.Pagination.Request.{
  Limits, Page, Query, new_limits, limit_of, parse_limit, single, page_at, page_of, parse_page,
  limit_param, after_param, before_param, max_page_limit,
}

-- Limits that `NewLimits` returns.
abbrev pub IsBounded : Limits → Type 0
IsBounded l =
    (pos 1 ≤ℤ l.default_size) × (l.default_size ≤ℤ l.max_size) × (l.max_size ≤ℤ pos max_page_limit)

-- `NewLimits` accepts exactly the bounded pairs, and returns them.
pub new_limits_iff :
    (default_size max_size : ℤ)
    → let l : Limits = record { default_size = default_size; max_size = max_size } in
      (new_limits default_size max_size ≡ ok l) ↔ IsBounded l
unfolding new_limits
new_limits_iff a b = (λ h. ground arith, λ h. ground arith)

-- Under limits from `NewLimits` a limit parameter is accepted exactly when it spells, in decimal and
-- without leading zeros, a number from 1 to the maximum; the page size is that number.
pub limit_of_iff :
    (l : Limits) (raw : Bytes) (v : ℕ)
    → IsBounded l
    → (limit_of l (some raw) ≡ ok (pos v)) ↔ (Spells raw v × (1 ≤ v) × (pos v ≤ℤ l.max_size))
unfolding limit_of
limit_of_iff l raw v b = (to, from)
  where
    to : limit_of l (some raw) ≡ ok (pos v) → Spells raw v × (1 ≤ v) × (pos v ≤ℤ l.max_size)
    to h = elim (Option-cases (decimal_value raw 4)) [
      | inl e ↦ ground (arith, e)
      | inr (w, e) ↦
          let same : w ≡ v = ground (arith, e) in
          let (spelled, _, _) = decimal_value_sound raw 4 e in
          (subst (Spells raw) same spelled, ground (arith, e), ground (arith, e))
    ]

    from : Spells raw v × (1 ≤ v) × (pos v ≤ℤ l.max_size) → limit_of l (some raw) ≡ ok (pos v)
    from (s, low, high) =
        let short : length raw ≤ 4 =
          unfold digits_in in length-le-digits_in raw v 9999 s (omega arith) in
        rw (decimal_value_complete raw 4 v s short (omega arith), limit_of) (ground arith)

-- Where a page comes from: the start of the collection, the rows behind a cursor, or those before it.
pub data ReadFrom (hmac : Hmac) (json : Json) (c : Codec) (b : Binding) (q : Query) (page : Page)
    : Type 0 where
  start :
      single q after_param ≡ ok none
      → single q before_param ≡ ok none
      → page.direction ≡ forward
      → page.cursor ≡ none
      → ReadFrom hmac json c b q page
  behind :
      (token : Bytes) (position : Cursor)
      → single q after_param ≡ ok (some token)
      → single q before_param ≡ ok none
      → decode_cursor hmac json c b token ≡ ok position
      → position.direction ≡ forward
      → page.direction ≡ forward
      → page.cursor ≡ some position
      → ReadFrom hmac json c b q page
  ahead :
      (token : Bytes) (position : Cursor)
      → single q after_param ≡ ok none
      → single q before_param ≡ ok (some token)
      → decode_cursor hmac json c b token ≡ ok position
      → position.direction ≡ backward
      → page.direction ≡ backward
      → page.cursor ≡ some position
      → ReadFrom hmac json c b q page

module _ (hmac : Hmac) (json : Json) (c : Codec) (b : Binding) where
  page_at_sound :
      (limit : ℤ) (direction token : Bytes) {page : Page}
      → page_at hmac json c b limit direction token ≡ ok page
      → (position : Cursor) × (decode_cursor hmac json c b token ≡ ok position)
        × (position.direction ≡ direction)
        × (page ≡ record { limit = limit; direction = direction; cursor = some position })
  unfolding page_at
  page_at_sound limit direction token h = elim (Result-cases (decode_cursor hmac json c b token)) [
    | inr (e, f) ↦ ground (arith, f)
    | inl (position, f) ↦
        (position, f, ground (arith, f, str_eq-eq position.direction direction), ground (arith, f))
  ]

  page_of-ReadFrom :
      (q : Query) (limit : ℤ) (after before : Option Bytes) {page : Page}
      → single q after_param ≡ ok after
      → single q before_param ≡ ok before
      → page_of hmac json c b limit after before ≡ ok page
      → ReadFrom hmac json c b q page × (page.limit ≡ limit)
  unfolding page_of
  page_of-ReadFrom q limit none none sa sb h =
      (start sa sb (ground arith) (ground arith), ground arith)
  page_of-ReadFrom q limit (some token) none sa sb h =
      let (position, e, d, same) = page_at_sound limit forward token h in
      (
        behind token position sa sb e d (ap (λ p. p.direction) same) (ap (λ p. p.cursor) same),
        ap (λ p. p.limit) same,
      )
  page_of-ReadFrom q limit none (some token) sa sb h =
      let (position, e, d, same) = page_at_sound limit backward token h in
      (
        ahead token position sa sb e d (ap (λ p. p.direction) same) (ap (λ p. p.cursor) same),
        ap (λ p. p.limit) same,
      )
  page_of-ReadFrom q limit (some token) (some other) sa sb h = absurd (cc)

limit_of-bounded :
    (l : Limits) (raw : Option Bytes) {limit : ℤ}
    → IsBounded l
    → limit_of l raw ≡ ok limit
    → (pos 1 ≤ℤ limit) × (limit ≤ℤ l.max_size)
unfolding limit_of
limit_of-bounded l none {limit} b h = ground arith
limit_of-bounded l (some raw) {limit} b h = elim (Option-cases (decimal_value raw 4)) [
  | inl e ↦ ground (arith, e)
  | inr (w, e) ↦ ground (arith, e)
]

parse_limit-bounded :
    (q : Query) (l : Limits) {limit : ℤ}
    → IsBounded l
    → parse_limit q l ≡ ok limit
    → (pos 1 ≤ℤ limit) × (limit ≤ℤ l.max_size)
unfolding parse_limit
parse_limit-bounded q l {limit} b h = elim (Result-cases (single q limit_param)) [
  | inr (e, f) ↦ ground (arith, f)
  | inl (raw, f) ↦ limit_of-bounded l raw {limit = limit} b (ground (arith, f))
]

-- Under limits from `NewLimits`, every page that `ParsePage` returns has a size from 1 to the maximum
-- and is read from one place: from the start in forward direction if neither cursor parameter is
-- given, or from the one cursor parameter that is given, whose token decodes for this query to a
-- cursor of the page's own direction.
pub parse_page_sound :
    (hmac : Hmac) (json : Json) (c : Codec) (b : Binding) (q : Query) (l : Limits) {page : Page}
    → IsBounded l
    → parse_page hmac json c b q l ≡ ok page
    → (pos 1 ≤ℤ page.limit) × (page.limit ≤ℤ l.max_size) × ReadFrom hmac json c b q page
unfolding parse_page
parse_page_sound hmac json c b q l {page} bounds h = elim (Result-cases (parse_limit q l)) [
  | inr (e, f) ↦ ground (arith, f)
  | inl (limit, f) ↦ elim (Result-cases (single q after_param)) [
    | inr (e, g) ↦ ground (arith, f, g)
    | inl (after, g) ↦ elim (Result-cases (single q before_param)) [
      | inr (e, k) ↦ ground (arith, f, g, k)
      | inl (before, k) ↦
          let (from, same) =
            page_of-ReadFrom hmac json c b q limit after before {page = page} g k
              (ground (arith, f, g, k)) in
          let (low, high) = parse_limit-bounded q l {limit = limit} bounds f in
          (ground (arith, same), ground (arith, same), from)
    ]
  ]
]
