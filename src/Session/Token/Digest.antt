-- ===== src/Session/Token/Digest.antt =====
-- The constant-time comparison decides equality.
use Prim.Native.Nat.{max, bit_or, bit_xor, digits, differ, bit_or-bitwise, bit_xor-bitwise}
use nise_and_go.Common.{
  ℕ, zero, suc, ◌/◌, ◌%◌, ◌≤◌, ◌≡◌, refl, ap, ◌∙◌, sym, ◌↔◌, true, [], ◌∷◌, arith, length,
}
use nise_and_go.Common.Text.{Bytes}
use nise_and_go.Session.Token.{difference, equal_digest, digest_bytes}

differ_zero : (x y : ℕ) → differ x y ≡ 0 → x ≡ y
differ_zero zero y h = sym h
differ_zero (suc x) zero h = absurd (omega arith)
differ_zero (suc x) (suc y) h = ap suc (differ_zero x y h)

differ_self : (x : ℕ) → differ x x ≡ 0
differ_self zero = refl
differ_self (suc x) = differ_self x

xor_zero : (n a b : ℕ) → a ≤ n → digits (λ b. b) differ n a b ≡ 0 → a ≡ b
xor_zero zero zero b l h = sym h
xor_zero zero (suc a) b l h = absurd (omega arith)
xor_zero (suc n) zero b l h = sym h
xor_zero (suc n) (suc a) b l h = omega (
  arith,
  xor_zero n (suc a / 2) (b / 2) (omega arith) (omega arith),
  differ_zero (suc a % 2) (b % 2) (omega arith),
)

xor_self : (n a : ℕ) → a ≤ n → digits (λ b. b) differ n a a ≡ 0
xor_self zero zero l = refl
xor_self zero (suc a) l = absurd (omega arith)
xor_self (suc n) zero l = refl
xor_self (suc n) (suc a) l =
    omega (arith, xor_self n (suc a / 2) (omega arith), differ_self (suc a % 2))

bit_xor-zero : (a b : ℕ) → bit_xor a b ≡ 0 → a ≡ b
bit_xor-zero a b h = xor_zero a a b (omega arith) (sym (bit_xor-bitwise a b) ∙ h)

bit_xor_self : (a : ℕ) → bit_xor a a ≡ 0
bit_xor_self a = bit_xor-bitwise a a ∙ xor_self a a (omega arith)

or_zero : (n a b : ℕ) → a ≤ n → digits (λ b. b) max n a b ≡ 0 → (a ≡ 0) × (b ≡ 0)
or_zero zero zero b l h = (refl, h)
or_zero zero (suc a) b l h = absurd (omega arith)
or_zero (suc n) zero b l h = (refl, h)
or_zero (suc n) (suc a) b l h =
    let ih = or_zero n (suc a / 2) (b / 2) (omega arith) (omega arith) in (omega arith, omega arith)

bit_or-zero : (a b : ℕ) → bit_or a b ≡ 0 → (a ≡ 0) × (b ≡ 0)
bit_or-zero a b h = or_zero a a b (omega arith) (sym (bit_or-bitwise a b) ∙ h)

difference_sound :
    (acc : ℕ) (a b : Bytes) → length a ≡ length b → difference acc a b ≡ 0 → (acc ≡ 0) × (a ≡ b)
unfolding difference
difference_sound acc [] [] l h = (h, refl)
difference_sound acc [] (y ∷ b) l h = absurd (omega arith)
difference_sound acc (x ∷ a) [] l h = absurd (omega arith)
difference_sound acc (x ∷ a) (y ∷ b) l h =
    let (here, there) = difference_sound (bit_or acc (bit_xor x y)) a b (omega arith) h in
    let (before, now) = bit_or-zero acc (bit_xor x y) here in (before, cc (bit_xor-zero x y now))

difference_self : (a : Bytes) → difference 0 a a ≡ 0
unfolding difference
difference_self [] = refl
difference_self (x ∷ a) = rw (bit_xor_self x) (difference_self a)

-- `EqualDigest` answers true exactly on two equal digests of the right length, though it reads both
-- to the end and never stops at the first differing byte.
pub equal_digest_iff :
    (a b : Bytes) → (equal_digest a b ≡ true) ↔ ((a ≡ b) × (length a ≡ digest_bytes))
unfolding equal_digest
equal_digest_iff a b = (to, from)
  where
    to : equal_digest a b ≡ true → (a ≡ b) × (length a ≡ digest_bytes)
    to h = ground (arith, difference_sound 0 a b)

    from : (a ≡ b) × (length a ≡ digest_bytes) → equal_digest a b ≡ true
    from (e, l) = rw (← e) (ground (arith, difference_self a))
