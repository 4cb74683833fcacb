-- ===== src/Common/Affix.antt =====
-- More of package strings: prefixes, suffixes, trimming of one byte, joining by a longer separator,
-- and lower case for ASCII.
pub mod Trim
pub mod Decimal
use nise_and_go.Common.{
  suc, ℕ, zero, suc, ◌+◌, ◌-◌, ◌/◌, ◌%◌, ◌≡◌, refl, Bool, true, false, ◌&&◌, ◌||◌, List, [], ◌∷◌,
  ◌++◌, map, ltb, leb, ◌==◌, if◌then◌else◌, length, drop,
}
use nise_and_go.Common.Text.{Bytes, codes, str_eq, is_empty, between}

-- `strings.HasPrefix(s, prefix)`
unfoldable pub has_prefix : Bytes → Bytes → Bool
has_prefix s [] = true
has_prefix [] (p ∷ ps) = false
has_prefix (c ∷ s) (p ∷ ps) = c == p && has_prefix s ps

-- `strings.HasSuffix(s, suffix)`
unfoldable pub has_suffix : Bytes → Bytes → Bool
has_suffix s suffix =
    leb (length suffix) (length s) && str_eq (drop (length s - length suffix) s) suffix

-- `strings.Contains(s, sub)`
unfoldable pub has_infix : Bytes → Bytes → Bool
has_infix [] sub = is_empty sub
has_infix (c ∷ s) sub = has_prefix (c ∷ s) sub || has_infix s sub

-- `strings.Trim(s, cut)` for one ASCII byte.
unfoldable pub trim_left : ℕ → Bytes → Bytes
trim_left q [] = []
trim_left q (c ∷ s) = if c == q then trim_left q s else c ∷ s

unfoldable pub trim_right : ℕ → Bytes → Bytes
trim_right q [] = []
trim_right q (c ∷ s) = elim (trim_right q s) [
  | [] ↦ if c == q then [] else c ∷ []
  | d ∷ r ↦ c ∷ d ∷ r
]

abbrev pub trim_byte : ℕ → Bytes → Bytes
trim_byte q s = trim_right q (trim_left q s)

-- `strings.Join(parts, sep)`
unfoldable pub join_text : Bytes → List Bytes → Bytes
join_text sep [] = []
join_text sep (p ∷ []) = p
join_text sep (p ∷ q ∷ ps) = p ++ (sep ++ join_text sep (q ∷ ps))

-- `strings.ToLower` on ASCII.
abbrev pub lower_byte : ℕ → ℕ
lower_byte c = if between b'A' b'Z' c then c + 32 else c

unfoldable pub to_lower : Bytes → Bytes
to_lower s = map lower_byte s

-- `strconv.FormatInt(n, 10)` for a number that is not negative. A number has no more digits than
-- one plus its value, which is the fuel.
decimal_loop : ℕ → ℕ → Bytes
decimal_loop zero n = []
decimal_loop (suc fuel) n = elim (ltb n 10) [
  | true ↦ (b'0' + n) ∷ []
  | false ↦ decimal_loop fuel (n / 10) ++ (b'0' + n % 10) ∷ []
]

unfoldable pub decimal : ℕ → Bytes
unfolding decimal_loop
decimal n = decimal_loop (n + 1) n

affix_runs : trim_byte b'\'' (codes "''ab'c'") ≡ codes "ab'c"
unfolding trim_left trim_right
affix_runs = refl

decimal_runs : decimal 31536000 ≡ codes "31536000"
unfolding decimal
decimal_runs = refl
