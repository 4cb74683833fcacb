-- ===== src/Common/Utf8.antt =====
-- unicode/utf8 as the program uses it: `ValidString` and
-- `RuneCountInString`.
use nise_and_go.Common.{
  zero, suc, ℕ, ◌-◌, ◌≡◌, refl, Bool, true, false, ◌&&◌, [], ◌∷◌, ltb, ◌==◌, if◌then◌else◌,
}
use nise_and_go.Common.Text.{Bytes, between}

abbrev continuation : ℕ → Bool
continuation c = between 0x80 0xbf c

-- The second byte that may follow the first byte `a` of a sequence of three.
abbrev second_of_three : ℕ → ℕ → Bool
second_of_three a b =
    if a == 0xe0
    then between 0xa0 0xbf b
    else if a == 0xed
    then between 0x80 0x9f b
    else continuation b

abbrev second_of_four : ℕ → ℕ → Bool
second_of_four a b =
    if a == 0xf0
    then between 0x90 0xbf b
    else if a == 0xf4
    then between 0x80 0x8f b
    else continuation b

-- How many bytes the sequence at the front has; 0 if it is not valid.
pub sequence_length : Bytes → ℕ
sequence_length [] = 0
sequence_length (a ∷ []) = if ltb a 0x80 then 1 else 0
sequence_length (a ∷ b ∷ []) =
    if ltb a 0x80 then 1 else if between 0xc2 0xdf a && continuation b then 2 else 0
sequence_length (a ∷ b ∷ c ∷ []) =
    if ltb a 0x80
    then 1
    else if between 0xc2 0xdf a && continuation b
    then 2
    else if between 0xe0 0xef a && second_of_three a b && continuation c
    then 3
    else 0
sequence_length (a ∷ b ∷ c ∷ d ∷ s) =
    if ltb a 0x80
    then 1
    else if between 0xc2 0xdf a && continuation b
    then 2
    else if between 0xe0 0xef a && second_of_three a b && continuation c
    then 3
    else if between 0xf0 0xf4 a && second_of_four a b && continuation c && continuation d
    then 4
    else 0

-- The scan: `skip` bytes of the current sequence are still to pass.
scan : ℕ → Bytes → Bool
unfolding sequence_length
scan n [] = true
scan (suc n) (c ∷ s) = scan n s
scan zero (c ∷ s) = elim (sequence_length (c ∷ s)) [ zero ↦ false | suc n ↦ scan n s ]

unfoldable pub valid_utf8 : Bytes → Bool
unfolding scan
valid_utf8 s = scan 0 s

-- A byte that is part of no valid sequence counts as one rune.
count_runes : ℕ → Bytes → ℕ
unfolding sequence_length
count_runes n [] = 0
count_runes (suc n) (c ∷ s) = count_runes n s
count_runes zero (c ∷ s) = suc (count_runes (sequence_length (c ∷ s) - 1) s)

unfoldable pub rune_count : Bytes → ℕ
unfolding count_runes
rune_count s = count_runes 0 s

two_byte_letter : valid_utf8 (0xc3 ∷ 0xa9 ∷ b'x' ∷ []) ≡ true
unfolding valid_utf8
two_byte_letter = refl

cut_short : valid_utf8 (b'x' ∷ 0xe2 ∷ 0x82 ∷ []) ≡ false
unfolding valid_utf8
cut_short = refl

surrogate : valid_utf8 (0xed ∷ 0xa0 ∷ 0x80 ∷ []) ≡ false
unfolding valid_utf8
surrogate = refl

two_runes : rune_count (0xc3 ∷ 0xa9 ∷ 0xff ∷ []) ≡ 2
unfolding rune_count
two_runes = refl
