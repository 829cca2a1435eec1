-- ===== src/Std/ParseInt/Range.antt =====
-- The range of what `str::parse::<iN>` gives.
use client_rust.Prelude.{
  ℕ, ◌-◌, ◌^◌, ◌<◌, ◌≡◌, Bytes, Bool, true, false, Option, none, some, [], ◌∷◌, ltb, leb, ◌==◌,
  arith, Bool-cases, inl, inr, if◌then◌else◌,
}
use client_rust.Prelude.Powers.{two_pow_pos}
use client_rust.Std.ParseInt.{
  ℤ, pos, negsuc, negate, positive_within, negative_within, bind_magnitude, parse_magnitude,
  parse_signed,
}

-- The integers of `width` bits.
abbrev pub InRange : ℕ → ℤ → Type 0
InRange width (pos n) = n < 2 ^ (width - 1)
InRange width (negsuc n) = n < 2 ^ (width - 1)

-- An integer in range, if there is one.
abbrev Within : ℕ → Option ℤ → Type 0
Within width none = Unit
Within width (some z) = InRange width z

positive_within-Within : (width n : ℕ) → Within width (positive_within width n)
unfolding positive_within
positive_within-Within width n = elim (Bool-cases (ltb n (2 ^ (width - 1)))) [
  | inl small ↦ rw (Within, small) (ground arith)
  | inr large ↦ rw (Within, large) tt
]

negate-InRange : (width n : ℕ) → leb n (2 ^ (width - 1)) ≡ true → InRange width (negate n)
negate-InRange width n h = elim (Bool-cases (n == 0)) [
  | inl none_left ↦ rw (negate, none_left) (two_pow_pos (width - 1))
  | inr more ↦ rw (negate, more) (ground arith)
]

negative_within-Within : (width n : ℕ) → Within width (negative_within width n)
unfolding negative_within
negative_within-Within width n = elim (Bool-cases (leb n (2 ^ (width - 1)))) [
  | inl small ↦ rw (Within, small) (negate-InRange width n small)
  | inr large ↦ rw (Within, large) tt
]

bind_magnitude-Within :
    (width : ℕ) (f : ℕ → Option ℤ) (o : Option ℕ)
    → ((n : ℕ) → Within width (f n))
    → Within width (bind_magnitude f o)
bind_magnitude-Within width f none h = tt
bind_magnitude-Within width f (some n) h = h n

if-Within :
    (width : ℕ) (b : Bool) (o o' : Option ℤ)
    → Within width o
    → Within width o'
    → Within width (if b then o else o')
if-Within width true o o' h h' = h
if-Within width false o o' h h' = h'

parse_signed-Within : (width : ℕ) (s : Bytes) → Within width (parse_signed width s)
unfolding parse_signed
parse_signed-Within width [] = tt
parse_signed-Within width (c ∷ r) =
    let positive = positive_within-Within width in
    if-Within width (c == b'-') _ _
      (bind_magnitude-Within width _ (parse_magnitude r) (negative_within-Within width))
      (if-Within width (c == b'+') _ _ (bind_magnitude-Within width _ (parse_magnitude r) positive)
        (bind_magnitude-Within width _ (parse_magnitude (c ∷ r)) positive))

pub parse_signed-InRange :
    (width : ℕ) (s : Bytes) (z : ℤ) → parse_signed width s ≡ some z → InRange width z
parse_signed-InRange width s z h = rw h at (parse_signed-Within width s)
