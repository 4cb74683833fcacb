-- ===== src/Pagination/Request.antt =====
-- runtime/pagination/request.go: page limits and the parameters of cursor pagination. A query is a
-- function from parameter names to their values, `none` where the name is missing.
pub mod Accepted
use nise_and_go.Common.{
  ℕ, ◌+◌, ◌≤◌, ◌<◌, ◌≡◌, refl, Bool, true, false, ◌&&◌, ◌||◌, not, List, [], ◌∷◌, Option, none,
  some, arith, ltb, ◌==◌, if◌then◌else◌, length,
}
use nise_and_go.Common.Int.{ℤ, pos, pos_part, neg_part, ltb_ℤ, leb_ℤ, eqb_ℤ}
use nise_and_go.Common.Text.{Bytes, codes, str_eq, is_empty}
use nise_and_go.Common.Result.{Result, ok, err, ◌>>=◌, ◌>>◌, fail_if, map_err}
use nise_and_go.Pagination.Binding.{Binding, binding_is_zero}
use nise_and_go.Pagination.Cursor.{
  Codec, Cursor, CursorError, Hmac, Json, Direction, forward, backward, decode_cursor,
}
use nise_and_go.Pagination.Decimal.{decimal_value}

abbrev pub limit_param : Bytes
limit_param = codes "limit"

abbrev pub after_param : Bytes
after_param = codes "after"

abbrev pub before_param : Bytes
before_param = codes "before"

abbrev pub max_page_limit : ℕ
max_page_limit = 200

abbrev pub Query : Type 0
Query = Bytes → Option (List Bytes)

-- `query[name]`: nil where the name is missing.
abbrev pub values_at : Query → Bytes → List Bytes
values_at q name = elim (q name) [ none ↦ [] | some vs ↦ vs ]

pub data RequestError : Type 0 where
  limits invalid_limit conflicting_cursors repeated_parameter empty_parameter : RequestError
  binding_required wrong_direction : RequestError
  cursor : CursorError → RequestError

pub record Limits : Type 0 where
  pub default_size : ℤ
  pub max_size : ℤ

-- `Limits{}`
abbrev pub zero_limits : Limits
zero_limits = record { default_size = pos 0; max_size = pos 0 }

unfoldable pub new_limits : ℤ → ℤ → Result RequestError Limits
new_limits default_size max_size = do
  fail_if (leb_ℤ default_size (pos 0)) limits
  fail_if (leb_ℤ max_size (pos 0)) limits
  fail_if (ltb_ℤ (pos max_page_limit) max_size) limits
  fail_if (ltb_ℤ max_size default_size) limits
  ok (record { default_size = default_size; max_size = max_size })

-- `single`: nothing, one value, or an error.
unfoldable pub single_of : List Bytes → Result RequestError (Option Bytes)
single_of [] = ok none
single_of (v ∷ []) = if is_empty v then err empty_parameter else ok (some v)
single_of (v ∷ w ∷ vs) = err repeated_parameter

unfoldable pub single : Query → Bytes → Result RequestError (Option Bytes)
unfolding single_of
single q name = single_of (values_at q name)

unfoldable pub limit_of : Limits → Option Bytes → Result RequestError ℤ
limit_of l none = ok l.default_size
limit_of l (some raw) = elim (decimal_value raw 4) [
  | none ↦ err invalid_limit
  | some limit ↦
      if ltb limit 1 || ltb_ℤ l.max_size (pos limit) then err invalid_limit else ok (pos limit)
]

unfoldable pub parse_limit : Query → Limits → Result RequestError ℤ
unfolding limit_of
parse_limit q l = do raw ← single q limit_param; limit_of l raw

pub record Page : Type 0 where
  pub limit : ℤ
  pub direction : Direction
  pub cursor : Option Cursor

-- The end of `ParsePage`: the cursor that the token stands for must be of the page's direction.
unfoldable pub page_at :
    Hmac → Json → Codec → Binding → ℤ → Direction → Bytes → Result RequestError Page
page_at hmac json c binding limit direction token = do
  position ← map_err cursor (decode_cursor hmac json c binding token)
  fail_if (not (str_eq position.direction direction)) wrong_direction
  ok (record { limit = limit; direction = direction; cursor = some position })

unfoldable pub page_of :
    Hmac → Json → Codec → Binding → ℤ → Option Bytes → Option Bytes → Result RequestError Page
unfolding page_at
page_of hmac json c binding limit (some after) (some before) = err conflicting_cursors
page_of hmac json c binding limit none (some before) =
    page_at hmac json c binding limit backward before
page_of hmac json c binding limit (some after) none =
    page_at hmac json c binding limit forward after
page_of hmac json c binding limit none none =
    ok (record { limit = limit; direction = forward; cursor = none })

-- The method `ParsePage`.
unfoldable pub parse_page :
    Hmac → Json → Codec → Binding → Query → Limits → Result RequestError Page
unfolding page_of
parse_page hmac json c binding q l = do
  fail_if (binding_is_zero binding) binding_required
  fail_if (eqb_ℤ l.default_size (pos 0)) limits
  limit ← parse_limit q l
  after ← single q after_param
  before ← single q before_param
  page_of hmac json c binding limit after before
