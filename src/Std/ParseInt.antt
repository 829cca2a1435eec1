-- ===== src/Std/ParseInt.antt =====
-- `str::parse::<iN>`: an optional sign, at least one decimal digit, and a value within `width` bits.
pub mod Range
use client_rust.Prelude.{
  ℕ, ◌+◌, ◌-◌, ◌*◌, ◌^◌, Bytes, Bool, true, false, ◌&&◌, Option, none, some, [], ◌∷◌, ltb, leb,
  ◌==◌, if◌then◌else◌, codes, ◌≡◌, refl,
}

-- `negsuc n` is -(n + 1).
pub data ℤ : Type 0 where
  pos : ℕ → ℤ
  negsuc : ℕ → ℤ

abbrev pub is_ascii_digit : ℕ → Bool
is_ascii_digit c = leb b'0' c && leb c b'9'

-- The number that decimal digits spell behind `n`; `none` at a byte that is no digit.
unfoldable pub parse_digits : ℕ → Bytes → Option ℕ
parse_digits n [] = some n
parse_digits n (c ∷ r) = elim (is_ascii_digit c) [
  | true ↦ parse_digits (n * 10 + (c - b'0')) r
  | false ↦ none
]

unfoldable pub parse_magnitude : Bytes → Option ℕ
unfolding parse_digits
parse_magnitude [] = none
parse_magnitude (c ∷ r) = parse_digits 0 (c ∷ r)

abbrev pub negate : ℕ → ℤ
negate n = if n == 0 then pos 0 else negsuc (n - 1)

-- Negative numbers reach one further than positive ones.
positive_within : ℕ → ℕ → Option ℤ
positive_within width n = if ltb n (2 ^ (width - 1)) then some (pos n) else none

negative_within : ℕ → ℕ → Option ℤ
negative_within width n = if leb n (2 ^ (width - 1)) then some (negate n) else none

abbrev bind_magnitude : (ℕ → Option ℤ) → Option ℕ → Option ℤ
bind_magnitude f none = none
bind_magnitude f (some n) = f n

unfoldable pub parse_signed : ℕ → Bytes → Option ℤ
unfolding parse_magnitude positive_within negative_within
parse_signed width [] = none
parse_signed width (c ∷ r) =
    if c == b'-'
    then bind_magnitude (negative_within width) (parse_magnitude r)
    else if c == b'+'
    then bind_magnitude (positive_within width) (parse_magnitude r)
    else bind_magnitude (positive_within width) (parse_magnitude (c ∷ r))

least_i8 : parse_signed 8 (codes "-128") ≡ some (negsuc 127)
unfolding parse_signed
least_i8 = refl

above_i8 : parse_signed 8 (codes "128") ≡ none
unfolding parse_signed
above_i8 = refl

sign_alone : parse_signed 8 (codes "-") ≡ none
unfolding parse_signed
sign_alone = refl
