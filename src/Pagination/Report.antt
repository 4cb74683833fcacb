-- ===== src/Pagination/Report.antt =====
-- runtime/pagination/report.go: numbered pages with totals. An int and an int64 are 64 bits wide.
pub mod Accepted
use nise_and_go.Common.{
  ℕ, ◌+◌, ◌-◌, ◌*◌, ◌/◌, ◌%◌, ◌≤◌, ◌<◌, ◌≡◌, refl, Bool, true, false, ◌&&◌, ◌||◌, not, List, [],
  ◌∷◌, Option, none, some, arith, ltb, leb, ◌==◌, if◌then◌else◌, length,
}
use nise_and_go.Common.Int.{
  ℤ, pos, negsuc, pos_part, neg_part, ◌-ℤ◌, ◌*ℤ◌, ◌+ℤ◌, ltb_ℤ, leb_ℤ, eqb_ℤ, wrap64,
}
use nise_and_go.Common.Text.{Bytes, codes}
use nise_and_go.Common.Result.{Result, ok, err, ◌>>=◌, ◌>>◌, fail_if, map_err}
use nise_and_go.Pagination.Decimal.{decimal_value, digits_in}
use nise_and_go.Pagination.Request.{
  Query, RequestError, single, limit_param, after_param, before_param, max_page_limit,
}

abbrev pub page_param : Bytes
page_param = codes "page"

abbrev pub size_param : Bytes
size_param = codes "size"

abbrev pub max_report_page : ℕ
max_report_page = 100_000

abbrev pub max_report_offset : ℕ
max_report_offset = 1_000_000

pub data ReportError : Type 0 where
  report_limits invalid_page invalid_size report_too_deep mixed_pagination : ReportError
  negative_total unbounded_report : ReportError
  parameter : RequestError → ReportError

pub record ReportLimits : Type 0 where
  pub default_size : ℤ
  pub max_size : ℤ
  pub max_offset : ℤ

unfoldable pub new_report_limits : ℤ → ℤ → ℤ → Result ReportError ReportLimits
new_report_limits default_size max_size max_offset = do
  fail_if (leb_ℤ default_size (pos 0)) report_limits
  fail_if (leb_ℤ max_size (pos 0)) report_limits
  fail_if (ltb_ℤ (pos max_page_limit) max_size) report_limits
  fail_if (ltb_ℤ max_size default_size) report_limits
  fail_if (ltb_ℤ max_offset (pos 0)) report_limits
  fail_if (ltb_ℤ (pos max_report_offset) max_offset) report_limits
  ok (record { default_size = default_size; max_size = max_size; max_offset = max_offset })

pub record Report : Type 0 where
  pub number : ℤ
  pub size : ℤ

-- `r.Offset()`: the difference and the product are int64s.
unfoldable pub offset : Report → ℤ
offset r = wrap64 (wrap64 (r.number -ℤ pos 1) *ℤ r.size)

pub record Totals : Type 0 where
  pub page : ℤ
  pub size : ℤ
  pub total : ℤ
  pub total_pages : ℤ
  pub has_more : Bool

-- `total / size`, rounded up, of two numbers that are not negative.
abbrev pub pages_of : ℕ → ℕ → ℕ
pages_of total size = if total % size == 0 then total / size else total / size + 1

-- The method `Totals`.
unfoldable pub totals : Report → ℤ → Result ReportError Totals
totals r total = do
  fail_if (ltb_ℤ total (pos 0)) negative_total
  fail_if (ltb_ℤ r.number (pos 1) || ltb_ℤ (pos max_report_page) r.number) unbounded_report
  fail_if (ltb_ℤ r.size (pos 1) || ltb_ℤ (pos max_page_limit) r.size) unbounded_report
  let pages = pages_of (pos_part total) (pos_part r.size)
  ok (record {
    page = r.number;
    size = r.size;
    total = total;
    total_pages = pos pages;
    has_more = ltb_ℤ r.number (pos pages);
  })

abbrev pub present : Query → Bytes → Bool
present q name = elim (q name) [ none ↦ false | some vs ↦ true ]

unfoldable pub bounded_of : ℤ → ℕ → ℤ → ReportError → Option Bytes → Result ReportError ℤ
bounded_of fallback low high sentinel none = ok fallback
bounded_of fallback low high sentinel (some raw) =
    elim (decimal_value raw (digits_in (pos_part high))) [
      | none ↦ err sentinel
      | some value ↦
          if ltb value low || ltb_ℤ high (pos value) then err sentinel else ok (pos value)
    ]

-- `parseBoundedParameter`
unfoldable pub parse_bounded_parameter :
    Query → Bytes → ℤ → ℕ → ℤ → ReportError → Result ReportError ℤ
unfolding bounded_of
parse_bounded_parameter q name fallback low high sentinel = do
  raw ← map_err parameter (single q name)
  bounded_of fallback low high sentinel raw

unfoldable pub parse_report : Query → ReportLimits → Result ReportError Report
parse_report q l = do
  fail_if (eqb_ℤ l.default_size (pos 0)) report_limits
  fail_if (present q limit_param || present q after_param || present q before_param)
      mixed_pagination
  number ← parse_bounded_parameter q page_param (pos 1) 1 (pos max_report_page) invalid_page
  size ← parse_bounded_parameter q size_param l.default_size 1 l.max_size invalid_size
  let report : Report = record { number = number; size = size }
  fail_if (ltb_ℤ l.max_offset (offset report)) report_too_deep
  ok report
