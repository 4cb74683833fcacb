-- ===== src/Common/Maybe.antt =====
-- A Go result `(value, ok)`, or one whose error says nothing, as an option.
use nise_and_go.Common.{Bool, true, false, Option, none, some}

infixl 5 ◌>>=◌ ◌>>◌
abbrev pub ◌>>=◌ {ℓ κ} : {A : Type ℓ} {B : Type κ} → Option A → (A → Option B) → Option B
none >>= f = none
some a >>= f = f a

abbrev pub ◌>>◌ {ℓ} : {B : Type ℓ} → Option (Unit {0}) → Option B → Option B
m >> k = m >>= λ _. k

-- `if b { return zero, false }`
abbrev pub none_if : Bool → Option (Unit {0})
none_if true = none
none_if false = some tt

abbrev pub is_some {ℓ} : {A : Type ℓ} → Option A → Bool
is_some none = false
is_some (some a) = true
