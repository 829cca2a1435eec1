-- ===== src/Query/Wire.antt =====
-- An independent reader of what the client sends: lines of digits, and blocks of known length.
use client_rust.Prelude.{
  ℕ, zero, suc, ◌+◌, ◌-◌, ◌*◌, ◌≡◌, refl, Bytes, true, false, Option, none, some, [], ◌∷◌, ◌++◌,
  length, take, drop, ◌≤◌, ◌==◌, arith, lf,
}
use client_rust.Std.{is_ascii_digit, parse_digits, parse_magnitude}

-- Digits up to a line feed: the number, and what follows the line.
pub read_line : ℕ → Bytes → Option (ℕ × Bytes)
read_line n [] = none
read_line n (c ∷ r) = elim (c == lf) [
  | true ↦ some (n, r)
  | false ↦ elim (is_ascii_digit c) [ true ↦ read_line (n * 10 + (c - b'0')) r | false ↦ none ]
]

read_line-digits :
    (s : Bytes) (m n : ℕ) (rest : Bytes)
    → parse_digits m s ≡ some n
    → read_line m (s ++ lf ∷ rest) ≡ some (n, rest)
unfolding read_line parse_digits
read_line-digits [] m n rest h = ground arith
read_line-digits (c ∷ s) m n rest h =
    ground (arith, read_line-digits s (m * 10 + (c - b'0')) n rest)

-- A printed number and its line feed are read back, whatever follows.
pub read_line-magnitude :
    (s : Bytes) (n : ℕ) (rest : Bytes)
    → parse_magnitude s ≡ some n
    → read_line 0 (s ++ lf ∷ rest) ≡ some (n, rest)
unfolding parse_magnitude
read_line-magnitude [] n rest h = cc
read_line-magnitude (c ∷ s) n rest h = read_line-digits (c ∷ s) 0 n rest h

-- The first `n` bytes and the rest; `none` if there are fewer.
pub split_at : ℕ → Bytes → Option (Bytes × Bytes)
split_at zero s = some ([], s)
split_at (suc n) [] = none
split_at (suc n) (c ∷ s) = elim (split_at n s) [ none ↦ none | some (a, b) ↦ some (c ∷ a, b) ]

pub split_at-length : (s rest : Bytes) → split_at (length s) (s ++ rest) ≡ some (s, rest)
unfolding split_at
split_at-length [] rest = refl
split_at-length (c ∷ s) rest = rw (split_at-length s rest, split_at)

pub split_at-take : (n : ℕ) (s : Bytes) → n ≤ length s → split_at n s ≡ some (take n s, drop n s)
unfolding split_at
split_at-take zero s h = refl
split_at-take (suc n) [] h = absurd (omega arith)
split_at-take (suc n) (c ∷ s) h = rw (split_at-take n s (omega arith), split_at)

pub split_at-append :
    (n : ℕ) (s rest : Bytes)
    → n ≤ length s
    → split_at n (s ++ rest) ≡ some (take n s, drop n s ++ rest)
unfolding split_at
split_at-append zero s rest h = refl
split_at-append (suc n) [] rest h = absurd (omega arith)
split_at-append (suc n) (c ∷ s) rest h = rw (split_at-append n s rest (omega arith), split_at)
