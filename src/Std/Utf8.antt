-- ===== src/Std/Utf8.antt =====
-- `core::str::from_utf8(block).is_ok()`, by the table of well-formed byte sequences of Unicode.
use client_rust.Prelude.{
  ℕ, zero, suc, Bytes, Bool, true, false, ◌&&◌, Option, none, some, [], ◌∷◌, ltb, leb, ◌==◌,
  if◌then◌else◌, ◌≡◌, refl,
}

-- How many continuation bytes are due, and the range that the next one lies in.
record Due : Type 0 where
  count : ℕ
  lo : ℕ
  hi : ℕ

abbrev due : ℕ → ℕ → ℕ → Due
due n l h = record { count = n; lo = l; hi = h }

abbrev in_range : ℕ → ℕ → ℕ → Bool
in_range lo hi b = leb lo b && leb b hi

utf8_first : ℕ → Option Due
utf8_first b =
    if ltb b 0x80
    then some (due 0 0x80 0xBF)
    else if in_range 0xC2 0xDF b
    then some (due 1 0x80 0xBF)
    else if b == 0xE0
    then some (due 2 0xA0 0xBF)
    else if b == 0xED
    then some (due 2 0x80 0x9F)
    else if in_range 0xE1 0xEF b
    then some (due 2 0x80 0xBF)
    else if b == 0xF0
    then some (due 3 0x90 0xBF)
    else if in_range 0xF1 0xF3 b
    then some (due 3 0x80 0xBF)
    else if b == 0xF4
    then some (due 3 0x80 0x8F)
    else none

utf8_continue : ℕ → Due → ℕ → Option Due
utf8_continue n s b = if in_range s.lo s.hi b then some (due n 0x80 0xBF) else none

utf8_step : ℕ → Due → ℕ → Option Due
unfolding utf8_first utf8_continue
utf8_step zero s b = utf8_first b
utf8_step (suc n) s b = utf8_continue n s b

utf8_run : Due → Bytes → Bool
unfolding utf8_step
utf8_run s [] = s.count == 0
utf8_run s (b ∷ r) = elim (utf8_step s.count s b) [ none ↦ false | some s' ↦ utf8_run s' r ]

unfoldable pub is_utf8 : Bytes → Bool
unfolding utf8_run
is_utf8 block = utf8_run (due 0 0x80 0xBF) block

two_bytes : is_utf8 (0x61 ∷ 0xC3 ∷ 0xA9 ∷ []) ≡ true
unfolding is_utf8
two_bytes = refl

surrogate : is_utf8 (0xED ∷ 0xA0 ∷ 0x80 ∷ []) ≡ false
unfolding is_utf8
surrogate = refl

cut_short : is_utf8 (0xE2 ∷ 0x82 ∷ []) ≡ false
unfolding is_utf8
cut_short = refl
