-- ===== src/Common/Space.antt =====
-- `strings.TrimSpace`: white space as Unicode has it, in UTF-8.
use nise_and_go.Common.{
  ◌++◌, true, append-nil, ap, ◌∙◌, arith, ℕ, zero, suc, ◌≡◌, refl, Bool, ◌&&◌, ◌||◌, [], ◌∷◌, ◌==◌,
  if◌then◌else◌, length, drop,
}
use nise_and_go.Common.Text.{Bytes, codes, between}

-- The ASCII white space.
abbrev space1 : ℕ → Bool
space1 a = between 9 13 a || a == 32

-- U+0085 and U+00A0.
abbrev space2 : ℕ → ℕ → Bool
space2 a b = a == 0xc2 && (b == 0x85 || b == 0xa0)

-- U+1680, U+2000 to U+200A, U+2028, U+2029, U+202F, U+205F and U+3000.
abbrev space3 : ℕ → ℕ → ℕ → Bool
space3 a b c =
    (a == 0xe1 && b == 0x9a && c == 0x80)
    || (a == 0xe2 && b == 0x80 && (between 0x80 0x8a c || c == 0xa8 || c == 0xa9 || c == 0xaf))
    || (a == 0xe2 && b == 0x81 && c == 0x9f)
    || (a == 0xe3 && b == 0x80 && c == 0x80)

-- How many bytes the space at the front has; 0 if there is none.
space_width : Bytes → ℕ
space_width [] = 0
space_width (a ∷ []) = if space1 a then 1 else 0
space_width (a ∷ b ∷ []) = if space1 a then 1 else if space2 a b then 2 else 0
space_width (a ∷ b ∷ c ∷ s) =
    if space1 a then 1 else if space2 a b then 2 else if space3 a b c then 3 else 0

-- The same for the text reversed.
space_width_back : Bytes → ℕ
space_width_back [] = 0
space_width_back (c ∷ []) = if space1 c then 1 else 0
space_width_back (c ∷ b ∷ []) = if space1 c then 1 else if space2 b c then 2 else 0
space_width_back (c ∷ b ∷ a ∷ s) =
    if space1 c then 1 else if space2 b c then 2 else if space3 a b c then 3 else 0

-- Drops spaces from the front; every space has a byte, so the length of the text is fuel enough.
trim : (Bytes → ℕ) → ℕ → Bytes → Bytes
trim width zero s = s
trim width (suc n) s = elim (width s) [ zero ↦ s | suc k ↦ trim width n (drop (suc k) s) ]

reverse : Bytes → Bytes → Bytes
reverse [] out = out
reverse (c ∷ s) out = reverse s (c ∷ out)

unfoldable pub trim_space : Bytes → Bytes
unfolding trim reverse space_width space_width_back
trim_space s =
    let left = trim space_width (length s) s in
    reverse (trim space_width_back (length left) (reverse left [])) []

trimmed : trim_space (32 ∷ 0xc2 ∷ 0xa0 ∷ 97 ∷ 32 ∷ 98 ∷ 0xe3 ∷ 0x80 ∷ 0x80 ∷ 9 ∷ []) ≡ codes "a b"
unfolding trim_space
trimmed = refl

-- Printable ASCII.
abbrev pub visible : ℕ → Bool
visible c = between 33 126 c

visible-space_width : (a : ℕ) (s : Bytes) → visible a ≡ true → space_width (a ∷ s) ≡ 0
unfolding space_width
visible-space_width a [] h = ground (arith, h)
visible-space_width a (b ∷ []) h = ground (arith, h)
visible-space_width a (b ∷ c ∷ s) h = ground (arith, h)

visible-space_width_back : (c : ℕ) (s : Bytes) → visible c ≡ true → space_width_back (c ∷ s) ≡ 0
unfolding space_width_back
visible-space_width_back c [] h = ground (arith, h)
visible-space_width_back c (b ∷ []) h = ground (arith, h)
visible-space_width_back c (b ∷ a ∷ s) h = ground (arith, h)

trim_stops : (width : Bytes → ℕ) (n : ℕ) (s : Bytes) → width s ≡ 0 → trim width n s ≡ s
unfolding trim
trim_stops width zero s h = refl
trim_stops width (suc n) s h = rw (h, trim) refl

reverse-reverse : (s out end : Bytes) → reverse (reverse s out) end ≡ reverse out (s ++ end)
unfolding reverse
reverse-reverse [] out end = refl
reverse-reverse (c ∷ s) out end = reverse-reverse s (c ∷ out) end

reverse_last : (s out : Bytes) (z : ℕ) → reverse (s ++ z ∷ []) out ≡ z ∷ reverse s out
unfolding reverse
reverse_last [] out z = refl
reverse_last (c ∷ s) out z = reverse_last s (c ∷ out) z

-- Text between two visible characters is not trimmed.
pub trim_space-visible :
    (a z : ℕ) (m : Bytes)
    → visible a ≡ true
    → visible z ≡ true
    → trim_space (a ∷ m ++ z ∷ []) ≡ a ∷ m ++ z ∷ []
unfolding trim_space
trim_space-visible a z m first last =
    let s = a ∷ m ++ z ∷ [] in
    let left = trim_stops space_width (length s) s (visible-space_width a (m ++ z ∷ []) first) in
    let back : reverse s [] ≡ z ∷ reverse (a ∷ m) [] = reverse_last (a ∷ m) [] z in
    let none_back : space_width_back (reverse s []) ≡ 0 =
      ap space_width_back back ∙ visible-space_width_back z (reverse (a ∷ m) []) last in
    let right = trim_stops space_width_back (length s) (reverse s []) none_back in
    ap (λ l. reverse (trim space_width_back (length l) (reverse l [])) []) left
    ∙ ap (λ r. reverse r []) right
    ∙ reverse-reverse s [] []
    ∙ append-nil s
