-- ===== src/Totp/Transcription.antt =====
-- A recovery code survives being written down and typed.
use nise_and_go.Common.{
  ℕ, zero, suc, ◌+◌, ◌%◌, ◌<◌, ◌≡◌, refl, sym, ap, ◌∙◌, Bool, true, ◌&&◌, [], ◌∷◌, some, arith,
  ◌==◌, length, get_or, map, length-map,
}
use nise_and_go.Common.Text.{Bytes, between, all_of}
use nise_and_go.Common.Space.{trim_space, trim_space-visible}
use nise_and_go.Totp.Recovery.{
  RecoveryCode, symbol, read_as, cleaned, grouped, member, parse_recovery_code, new_recovery_code,
  recovery_alphabet,
}

-- What the alphabet's characters have in common.
abbrev good : ℕ → Bool
good c = between 48 90 c && read_as c == c && member c recovery_alphabet

all_good : all_of good recovery_alphabet ≡ true
unfolding all_of member
all_good = refl

entry_good :
    (xs : Bytes) (i : ℕ) → all_of good xs ≡ true → i < length xs → good (get_or xs i 0) ≡ true
unfolding all_of
entry_good [] i h l = absurd (omega arith)
entry_good (x ∷ xs) zero h l = ground (arith, h)
entry_good (x ∷ xs) (suc i) h l = entry_good xs i (ground (arith, h)) (omega arith)

symbol-good : (b : ℕ) → good (symbol b) ≡ true
symbol-good b = entry_good recovery_alphabet (b % 32) all_good (omega arith)

-- The symbols of random bytes.
symbols_good : (raw : Bytes) → all_of good (map symbol raw) ≡ true
unfolding all_of
symbols_good [] = refl
symbols_good (b ∷ raw) = ground (arith, symbol-good b, symbols_good raw)

-- The parser reads the characters of the alphabet as they are and passes over the hyphens.
cleaned-grouped : (i : ℕ) (s : Bytes) → all_of good s ≡ true → cleaned (grouped i s) ≡ s
unfolding all_of cleaned grouped
cleaned-grouped i [] h = refl
cleaned-grouped i (c ∷ s) h = ground (arith, h, cleaned-grouped (i + 1) s)

all_member : (s : Bytes) → all_of good s ≡ true → all_of (λ c. member c recovery_alphabet) s ≡ true
unfolding all_of
all_member [] h = refl
all_member (c ∷ s) h = ground (arith, h, all_member s)

-- The first and the last character of a code are not trimmed away.
untrimmed :
    (a b c d e f g h i j : ℕ)
    → good a ≡ true
    → good j ≡ true
    → trim_space (grouped 0 (a ∷ b ∷ c ∷ d ∷ e ∷ f ∷ g ∷ h ∷ i ∷ j ∷ []))
      ≡ grouped 0 (a ∷ b ∷ c ∷ d ∷ e ∷ f ∷ g ∷ h ∷ i ∷ j ∷ [])
unfolding grouped
untrimmed a b c d e f g h i j first last =
    trim_space-visible a j (b ∷ c ∷ d ∷ e ∷ b'-' ∷ f ∷ g ∷ h ∷ i ∷ []) (ground (arith, first))
      (ground (arith, last))

ten_untrimmed :
    (s : Bytes) → length s ≡ 10 → all_of good s ≡ true → trim_space (grouped 0 s) ≡ grouped 0 s
unfolding all_of
ten_untrimmed (a ∷ b ∷ c ∷ d ∷ e ∷ f ∷ g ∷ h ∷ i ∷ j ∷ []) l k =
    let s = a ∷ b ∷ c ∷ d ∷ e ∷ f ∷ g ∷ h ∷ i ∷ j ∷ [] in
    untrimmed a b c d e f g h i j (entry_good s 0 k (omega arith)) (entry_good s 9 k (omega arith))
ten_untrimmed [] l k = absurd (omega arith)
ten_untrimmed (a ∷ []) l k = absurd (omega arith)
ten_untrimmed (a ∷ b ∷ []) l k = absurd (omega arith)
ten_untrimmed (a ∷ b ∷ c ∷ []) l k = absurd (omega arith)
ten_untrimmed (a ∷ b ∷ c ∷ d ∷ []) l k = absurd (omega arith)
ten_untrimmed (a ∷ b ∷ c ∷ d ∷ e ∷ []) l k = absurd (omega arith)
ten_untrimmed (a ∷ b ∷ c ∷ d ∷ e ∷ f ∷ []) l k = absurd (omega arith)
ten_untrimmed (a ∷ b ∷ c ∷ d ∷ e ∷ f ∷ g ∷ []) l k = absurd (omega arith)
ten_untrimmed (a ∷ b ∷ c ∷ d ∷ e ∷ f ∷ g ∷ h ∷ []) l k = absurd (omega arith)
ten_untrimmed (a ∷ b ∷ c ∷ d ∷ e ∷ f ∷ g ∷ h ∷ i ∷ []) l k = absurd (omega arith)
ten_untrimmed (a ∷ b ∷ c ∷ d ∷ e ∷ f ∷ g ∷ h ∷ i ∷ j ∷ m ∷ s) l k = absurd (omega arith)

-- A code generated from ten random bytes is parsed, when it is typed as it was shown, as itself.
pub parse_recovery_code-new_recovery_code :
    (raw : Bytes) {code : RecoveryCode}
    → length raw ≡ 10
    → new_recovery_code (some raw) ≡ some code
    → parse_recovery_code code.value ≡ some code
unfolding new_recovery_code parse_recovery_code
parse_recovery_code-new_recovery_code raw {code} l h =
    let s = map symbol raw in
    let nice = symbols_good raw in
    let ten : length s ≡ 10 = length-map raw symbol ∙ l in
    let shown : grouped 0 s ≡ code.value = ground (arith, h) in
    let kept : trim_space code.value ≡ grouped 0 s =
      ap trim_space (sym shown) ∙ ten_untrimmed s ten nice in
    let clean : cleaned (trim_space code.value) ≡ s = ap cleaned kept ∙ cleaned-grouped 0 s nice in
    ground (arith, clean, ten, all_member s nice, shown)
