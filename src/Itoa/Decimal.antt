-- ===== src/Itoa/Decimal.antt =====
-- A decimal formatter that meets what is asked of `itoa`.
use client_rust.Prelude.{
  ℕ, zero, suc, ◌+◌, ◌-◌, ◌*◌, ◌/◌, ◌%◌, ◌<◌, ◌≡◌, ◌≢◌, refl, Bytes, [], ◌∷◌, some, true, false,
  ltb, Bool-cases, inl, inr, arith,
}
use native.Mathlib.Nat.{zero-add}
use client_rust.Std.{ℤ, pos, negsuc, parse_digits, parse_magnitude, is_ascii_digit}
use client_rust.Itoa.{Itoa}

digits : ℕ → ℕ → Bytes → Bytes
digits zero n acc = acc
digits (suc f) n acc = elim (ltb n 10) [
  | true ↦ (b'0' + n) ∷ acc
  | false ↦ digits f (n / 10) ((b'0' + n % 10) ∷ acc)
]

-- One round for each digit, and there are at most `n + 1` of them.
pub decimal : ℕ → Bytes
decimal n = digits (suc n) n []

pub decimal_signed : ℤ → Bytes
decimal_signed (pos n) = decimal n
decimal_signed (negsuc n) = b'-' ∷ decimal (n + 1)

parse_digit :
    (m k : ℕ) (acc : Bytes)
    → k < 10
    → parse_digits m ((b'0' + k) ∷ acc) ≡ parse_digits (m * 10 + k) acc
unfolding parse_digits
parse_digit m k acc h =
    let is_digit : is_ascii_digit (b'0' + k) ≡ true = ground arith in
    let same : (b'0' + k) - b'0' ≡ k = omega arith in ground arith

digits_last : (f n : ℕ) (acc : Bytes) → ltb n 10 ≡ true → digits (suc f) n acc ≡ (b'0' + n) ∷ acc
unfolding digits
digits_last f n acc h = rw (h, digits)

digits_next :
    (f n : ℕ) (acc : Bytes)
    → ltb n 10 ≡ false
    → digits (suc f) n acc ≡ digits f (n / 10) ((b'0' + n % 10) ∷ acc)
unfolding digits
digits_next f n acc h = rw (h, digits)

parse-digits :
    (f n : ℕ) (acc : Bytes) → n < f → parse_digits 0 (digits f n acc) ≡ parse_digits n acc
parse-digits zero n acc h = absurd (omega arith)
parse-digits (suc f) n acc h = elim (Bool-cases (ltb n 10)) [
  | inl small ↦ rw (digits_last f n acc small, parse_digit 0 n acc (ground arith)) (rw zero-add)
  | inr large ↦
      let whole : n / 10 * 10 + n % 10 ≡ n = omega arith in
      rw (
        digits_next f n acc large,
        parse-digits f (n / 10) ((b'0' + n % 10) ∷ acc) (ground arith),
        parse_digit (n / 10) (n % 10) acc (omega arith),
        whole,
      )
]

digits-cons : (f n c : ℕ) (acc : Bytes) → digits f n (c ∷ acc) ≢ []
unfolding digits
digits-cons zero n c acc = cc
digits-cons (suc f) n c acc = ground (arith, digits-cons f (n / 10) (b'0' + n % 10) (c ∷ acc))

digits-ne-nil : (f n : ℕ) (acc : Bytes) → digits (suc f) n acc ≢ []
unfolding digits
digits-ne-nil f n acc = ground (arith, digits-cons f (n / 10) (b'0' + n % 10) acc)

parse_magnitude-digits : (s : Bytes) → s ≢ [] → parse_magnitude s ≡ parse_digits 0 s
unfolding parse_magnitude
parse_magnitude-digits [] h = absurd (h refl)
parse_magnitude-digits (c ∷ s) h = refl

-- What is printed reads back.
pub decimal_value : (n : ℕ) → parse_magnitude (decimal n) ≡ some n
unfolding decimal
decimal_value n =
    rw
      (
        parse_magnitude-digits (decimal n) (digits-ne-nil n n []),
        parse-digits (suc n) n [] (omega arith),
      )
      (unfold parse_digits in refl)

pub decimal_signed-pos : (n : ℕ) → decimal_signed (pos n) ≡ decimal n
unfolding decimal_signed
decimal_signed-pos n = refl

pub decimal_signed-negsuc : (n : ℕ) → decimal_signed (negsuc n) ≡ b'-' ∷ decimal (n + 1)
unfolding decimal_signed
decimal_signed-negsuc n = refl

abbrev pub decimal_itoa : Itoa
decimal_itoa = record {
  format = decimal;
  format_signed = decimal_signed;
  format_value = decimal_value;
  format_pos = decimal_signed-pos;
  format_negsuc = decimal_signed-negsuc;
}
