-- ===== src/Pagination/Report/Accepted.antt =====
-- Which reports are accepted, and what their totals say.
use nise_and_go.Common.{
  ℕ, zero, suc, ◌+◌, ◌-◌, ◌*◌, ◌%◌, ◌≤◌, ◌<◌, ◌≡◌, ◌↔◌, refl, subst, inl, inr, false, ◌||◌, none,
  some, arith, ltb, ◌==◌, Bool-cases, Option-cases,
}
use nise_and_go.Common.Int.{
  ℤ, pos, negsuc, pos_part, ◌-ℤ◌, ◌*ℤ◌, ◌≤ℤ◌, max_int64, wrap64_id, int_laws,
}
use native.Mathlib.Nat.{mul-le-mul, mul-le-mul_right, div-add-mod', mod-lt}
use nise_and_go.Common.Text.{Bytes}
use nise_and_go.Common.Result.{ok, Result-cases}
use nise_and_go.Pagination.Decimal.{decimal_value, digits_in}
use nise_and_go.Pagination.Decimal.Spelling.{Spells, decimal_value_sound, decimal_value_complete}
use nise_and_go.Pagination.Decimal.Digits.{length-le-digits_in}
use nise_and_go.Pagination.Request.{
  Query, single, max_page_limit, limit_param, after_param, before_param,
}
use nise_and_go.Pagination.Report.{
  Report, ReportLimits, ReportError, new_report_limits, offset, totals, pages_of, present,
  bounded_of, parse_bounded_parameter, parse_report, page_param, size_param, invalid_page,
  invalid_size, max_report_page, max_report_offset,
}

-- A page and a size within the ceilings of the package.
abbrev pub IsBounded : Report → Type 0
IsBounded r =
    (pos 1 ≤ℤ r.number)
    × (r.number ≤ℤ pos max_report_page)
    × (pos 1 ≤ℤ r.size)
    × (r.size ≤ℤ pos max_page_limit)

times : (n s : ℕ) → pos n *ℤ pos s ≡ pos (n * s)
unfolding ◌*ℤ◌
times n s = ground arith

offset_exact :
    (n s : ℕ)
    → n < max_report_page
    → s ≤ max_page_limit
    → offset (record { number = pos (suc n); size = pos s }) ≡ pos (n * s)
unfolding offset
offset_exact n s h k =
    let less : pos (suc n) -ℤ pos 1 ≡ pos n = omega int_laws in
    let small : n * s ≤ 100_000 * 200 = mul-le-mul {n₂ = 100_000} (omega arith) k in
    rw (less, wrap64_id (pos n) (omega arith), times n s, wrap64_id (pos (n * s)) (omega arith))
      refl

pages_bounds : (t s : ℕ) → 1 ≤ s → (t ≤ pages_of t s * s) × (pages_of t s * s < t + s)
pages_bounds t s h = elim (Bool-cases (t % s == 0)) [
  | inl e ↦ rw e (ground (arith, div-add-mod' t s), ground (arith, div-add-mod' t s))
  | inr e ↦
      rw e
        (ground (arith, div-add-mod' t s, mod-lt t h), ground (arith, div-add-mod' t s, mod-lt t h))
]

-- The comparison of page numbers is the comparison of rows.
more_rows :
    (n s t pages : ℕ) → 1 ≤ s → t ≤ pages * s → pages * s < t + s → ltb n pages ≡ ltb (n * s) t
more_rows n s t pages h a b = elim (Bool-cases (ltb n pages)) [
  | inl e ↦
      let next : suc n * s ≤ pages * s = mul-le-mul_right s (ground arith) in ground (arith, next)
  | inr e ↦ let past : pages * s ≤ n * s = mul-le-mul_right s (ground arith) in ground (arith, past)
]

-- For a bounded report and a total that is not negative, the totals repeat the page, size and
-- total; the number of pages is the least that holds every row; and there is more behind this page
-- exactly when the rows up to its end are fewer than the total.
pub totals_lem :
    (n s t : ℕ)
    → 1 ≤ n
    → n ≤ max_report_page
    → 1 ≤ s
    → s ≤ max_page_limit
    → (pages : ℕ) × (totals (record { number = pos n; size = pos s }) (pos t)
        ≡ ok (record {
          page = pos n;
          size = pos s;
          total = pos t;
          total_pages = pos pages;
          has_more = ltb (n * s) t;
        }))
      × (t ≤ pages * s)
      × (pages * s < t + s)
unfolding totals
totals_lem n s t h₁ h₂ h₃ h₄ =
    let (a, b) = pages_bounds t s h₃ in
    (pages_of t s, ground (arith, more_rows n s t (pages_of t s) h₃ a b), a, b)

-- A page number or size within `low` and `high` is accepted exactly in its one decimal spelling: the
-- bound on the digits refuses none of them.
pub bounded_of_iff :
    (fallback : ℤ) (low high : ℕ) (sentinel : ReportError) (raw : Bytes) (v : ℕ)
    → high ≤ max_int64
    → (bounded_of fallback low (pos high) sentinel (some raw) ≡ ok (pos v))
      ↔ (Spells raw v × (low ≤ v) × (v ≤ high))
unfolding bounded_of
bounded_of_iff fallback low high sentinel raw v fits = (to, from)
  where
    to :
        bounded_of fallback low (pos high) sentinel (some raw) ≡ ok (pos v)
        → Spells raw v × (low ≤ v) × (v ≤ high)
    to h = elim (Option-cases (decimal_value raw (digits_in high))) [
      | inl e ↦ ground (arith, e)
      | inr (w, e) ↦
          let same : w ≡ v = ground (arith, e) in
          let (spelled, _, _) = decimal_value_sound raw (digits_in high) e in
          (subst (Spells raw) same spelled, ground (arith, e), ground (arith, e))
    ]

    from :
        Spells raw v × (low ≤ v) × (v ≤ high)
        → bounded_of fallback low (pos high) sentinel (some raw) ≡ ok (pos v)
    from (s, a, b) =
        rw
          (
            decimal_value_complete raw (digits_in high) v s (length-le-digits_in raw v high s b)
                (omega arith),
            bounded_of,
          )
          (ground arith)

-- A parameter's value lies in its range.
parse_bounded_range :
    (q : Query) (name : Bytes) (fallback : ℤ) (low : ℕ) (high : ℤ) (sentinel : ReportError) {v : ℤ}
    → pos low ≤ℤ fallback
    → fallback ≤ℤ high
    → parse_bounded_parameter q name fallback low high sentinel ≡ ok v
    → (pos low ≤ℤ v) × (v ≤ℤ high)
unfolding parse_bounded_parameter bounded_of
parse_bounded_range q name fallback low high sentinel {v} a b h =
    elim (Result-cases (single q name)) [
      | inr (e, f) ↦ ground (arith, f)
      | inl (none, f) ↦ ground (arith, f)
      | inl (some raw, f) ↦ elim (Option-cases (decimal_value raw (digits_in (pos_part high)))) [
        | inl g ↦ ground (arith, f, g)
        | inr (w, g) ↦ ground (arith, f, g)
      ]
    ]

-- Limits that `NewReportLimits` returns.
abbrev pub IsUsable : ReportLimits → Type 0
IsUsable l =
    (pos 1 ≤ℤ l.default_size)
    × (l.default_size ≤ℤ l.max_size)
    × (l.max_size ≤ℤ pos max_page_limit)
    × (pos 0 ≤ℤ l.max_offset)
    × (l.max_offset ≤ℤ pos max_report_offset)

pub new_report_limits_sound :
    (a b o : ℤ) {l : ReportLimits} → new_report_limits a b o ≡ ok l → IsUsable l
unfolding new_report_limits
new_report_limits_sound a b o h = ground arith

offset_parts :
    (n s : ℤ)
    → IsBounded (record { number = n; size = s })
    → offset (record { number = n; size = s }) ≡ pos ((pos_part n - 1) * pos_part s)
offset_parts (negsuc n) s b = absurd (omega arith)
offset_parts (pos zero) s b = absurd (omega arith)
offset_parts (pos (suc n)) (negsuc s) b = absurd (omega arith)
offset_parts (pos (suc n)) (pos s) b =
    let less : suc n - 1 ≡ n = omega arith in rw less (offset_exact n s (omega arith) (omega arith))

offset_bounded :
    (r : Report) → IsBounded r → offset r ≡ pos ((pos_part r.number - 1) * pos_part r.size)
offset_bounded r b = offset_parts r.number r.size b

-- Under limits from `NewReportLimits`, a report that `ParseReport` returns names none of the cursor
-- parameters, lies within the ceilings for page and size, and starts at a row, counted exactly and
-- without overflow, no further than the offset ceiling.
pub parse_report_sound :
    (q : Query) (a b o : ℤ) {l : ReportLimits} {r : Report}
    → new_report_limits a b o ≡ ok l
    → parse_report q l ≡ ok r
    → (present q limit_param || present q after_param || present q before_param ≡ false)
      × IsBounded r
      × (r.size ≤ℤ l.max_size)
      × (offset r ≡ pos ((pos_part r.number - 1) * pos_part r.size))
      × (offset r ≤ℤ l.max_offset)
unfolding parse_report
parse_report_sound q a b o {l} {r} made h =
    let u = new_report_limits_sound a b o {l = l} made in
    elim (Result-cases
      (parse_bounded_parameter q page_param (pos 1) 1 (pos max_report_page) invalid_page)) [
        | inr (e, f) ↦ ground (arith, f)
        | inl (n, f) ↦
            elim (Result-cases
              (parse_bounded_parameter q size_param l.default_size 1 l.max_size invalid_size)) [
                | inr (e, g) ↦ ground (arith, f, g)
                | inl (s, g) ↦
                    let rn =
                      parse_bounded_range q page_param (pos 1) 1 (pos max_report_page) invalid_page
                        {v = n} (omega arith) (omega arith) f in
                    let rs =
                      parse_bounded_range q size_param l.default_size 1 l.max_size invalid_size
                        {v = s} (omega arith) (omega arith) g in
                    let same : r ≡ record { number = n; size = s } = ground (arith, f, g) in
                    (
                      ground (arith, f, g),
                      ground (arith, same, rn, rs),
                      ground (arith, same, rs),
                      offset_bounded r (ground (arith, same, rn, rs)),
                      ground (arith, f, g),
                    )
              ]
      ]
