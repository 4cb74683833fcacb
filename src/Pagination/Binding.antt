-- ===== src/Pagination/Binding.antt =====
-- runtime/pagination/cursor.go: `Binding` and `NewBinding`. A url.Values is an association list with
-- distinct keys, in whatever order the map is met. SHA-256 is a parameter.
pub mod Canonical
use nise_and_go.Common.{
  ◌-◌, ℕ, ◌+◌, ◌/◌, ◌%◌, ◌≡◌, refl, Bool, true, false, List, [], ◌∷◌, ◌++◌, map, arith, ltb,
  if◌then◌else◌, length,
}
use nise_and_go.Common.Text.{Bytes, codes, str_eq, is_empty}
use nise_and_go.Common.Keys.{sort}
use nise_and_go.Pagination.Frame.{frame, uint64_bytes}

abbrev pub Values : Type 0
Values = List (Bytes × List Bytes)

-- `filters[key]`: nothing where the key is missing.
unfoldable pub values_of : Values → Bytes → List Bytes
values_of [] k = []
values_of ((j, vs) ∷ f) k = if str_eq j k then vs else values_of f k

abbrev pub keys : Values → List Bytes
keys = map (λ e. e.0)

unfoldable pub frames : List Bytes → Bytes
frames [] = []
frames (v ∷ vs) = frame v ++ frames vs

-- One round of the loop over the sorted keys.
unfoldable pub entry : Values → Bytes → Bytes
entry f k = frame k ++ (uint64_bytes (length (values_of f k)) ++ frames (values_of f k))

unfoldable pub entries : Values → List Bytes → Bytes
unfolding entry
entries f [] = []
entries f (k ∷ ks) = entry f k ++ entries f ks

-- The buffer that `NewBinding` hashes.
unfoldable pub canonical : Bytes → Values → Bytes
unfolding entries
canonical resource f =
    frame resource ++ (uint64_bytes (length (sort (keys f))) ++ entries f (sort (keys f)))

pub hex_digit : ℕ → ℕ
hex_digit n = if ltb n 10 then b'0' + n else b'a' + n - 10

-- `hex.EncodeToString`
unfoldable pub hex : Bytes → Bytes
unfolding hex_digit
hex [] = []
hex (b ∷ s) = hex_digit (b / 16) ∷ hex_digit (b % 16) ∷ hex s

pub record Binding : Type 0 where
  pub fingerprint : Bytes

-- `Binding{}`
abbrev pub zero_binding : Binding
zero_binding = record { fingerprint = [] }

abbrev pub binding_is_zero : Binding → Bool
binding_is_zero b = is_empty b.fingerprint

unfoldable pub new_binding : (Bytes → Bytes) → Bytes → Values → Binding
new_binding sha256 resource f = record { fingerprint = hex (sha256 (canonical resource f)) }
