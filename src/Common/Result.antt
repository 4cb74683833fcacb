-- ===== src/Common/Result.antt =====
-- A Go result `(value, error)`: exactly one of the two is meant, so it is a sum over the errors of
-- the package. A do block chains calls the way `if err != nil { return err }` does.
use nise_and_go.Common.{if◌then◌else◌, ◌≡◌, refl, Bool, true, false, ◌⊎◌, inl, inr}

pub data Result {ℓ} (E : Type 0) (A : Type ℓ) : Type ℓ where
  ok : A → Result E A
  err : E → Result E A

-- `if b { return err }`
abbrev pub fail_if : {E : Type 0} → Bool → E → Result E (Unit {0})
fail_if true problem = err problem
fail_if false problem = ok tt

infixl 5 ◌>>=◌ ◌>>◌
abbrev pub ◌>>=◌ {ℓ κ} :
    {E : Type 0} {A : Type ℓ} {B : Type κ} → Result E A → (A → Result E B) → Result E B
err problem >>= next = err problem
ok value >>= next = next value

abbrev pub ◌>>◌ {ℓ} : {E : Type 0} {B : Type ℓ} → Result E (Unit {0}) → Result E B → Result E B
check >> rest = check >>= λ done. rest

-- An error of a callee wrapped in one of the caller's.
abbrev pub map_err {ℓ} : {E F : Type 0} {A : Type ℓ} → (E → F) → Result E A → Result F A
map_err f (ok a) = ok a
map_err f (err e) = err (f e)

abbrev pub is_ok {ℓ} : {E : Type 0} {A : Type ℓ} → Result E A → Bool
is_ok (ok a) = true
is_ok (err e) = false

pub >>=-eq-ok {ℓ κ} :
    {E : Type 0} {A : Type ℓ} {B : Type κ} (check : Result E A) (next : A → Result E B) {out : B}
    → (check >>= next) ≡ ok out
    → (value : A) × (check ≡ ok value) × (next value ≡ ok out)
>>=-eq-ok (err problem) next h = cc
>>=-eq-ok (ok value) next h = (value, refl, h)

pub Result-cases {ℓ} :
    {E : Type 0} {A : Type ℓ} (m : Result E A) → ((a : A) × (m ≡ ok a)) ⊎ ((e : E) × (m ≡ err e))
Result-cases (ok a) = inl (a, refl)
Result-cases (err e) = inr (e, refl)

-- What a guard that passed says.
pub guard-passed {ℓ} :
    {E : Type 0} {A : Type ℓ} (b : Bool) (problem : E) (r : Result E A) {a : A}
    → (if b then err problem else r) ≡ ok a
    → (b ≡ false) × (r ≡ ok a)
guard-passed true problem r h = cc
guard-passed false problem r h = (refl, h)

pub check-passed {ℓ} :
    {E : Type 0} {A : Type ℓ} (b : Bool) (problem : E) (r : Result E A) {a : A}
    → (if b then r else err problem) ≡ ok a
    → (b ≡ true) × (r ≡ ok a)
check-passed true problem r h = (refl, h)
check-passed false problem r h = cc
