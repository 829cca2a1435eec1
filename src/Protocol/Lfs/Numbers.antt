-- ===== src/Protocol/Lfs/Numbers.antt =====
-- The unsigned integers of `impl_num_lfs_object!` in src/protocol/mod.rs, and the digits that they read.
use client_rust.Prelude.{
  ℕ, ◌+◌, ◌-◌, ◌*◌, ◌%◌, ◌^◌, ◌≤◌, ◌<◌, ◌≡◌, refl, ap, suc, Bytes, Bool, [], ◌∷◌, ◌++◌, length,
  drop, some, none, true, false, lf, arith, ltb, ◌==◌, Bool-cases, inl, inr, dec_lt,
}
use client_rust.Prelude.Powers.{two_pow_pos}
use client_rust.Error.{invalid_server_response_for_data}
use client_rust.Std.{is_ascii_digit, parse_digits, parse_magnitude}
use client_rust.Protocol.Outcome.{Decoder, Outcome, done, fail, panic, out_of_fuel}
use client_rust.Protocol.Cursor.{decoder}
use client_rust.Protocol.Extend.{IsValid}
use client_rust.Protocol.State.{ProtocolObjectDecodeState, completed}
use client_rust.Protocol.Lfs.{
  LfsValue, checked_push, unsigned_update, unsigned, complete, initialize,
}
use client_rust.Protocol.Lfs.Scan.{scan, scan_end, scan_accepted, scan_refused, complete-scan}

abbrev number : ℕ → LfsValue ℕ (Unit {0})
number n = record { v = n; state = tt }

-- The method fails with an error of the data.
abbrev pub Refused : {A : Type 0} → Outcome A → Type 0
Refused (done a d) = ⊥
Refused (fail e d) = e ≡ invalid_server_response_for_data
Refused panic = ⊥
Refused out_of_fuel = ⊥

-- A byte of a number that is read: a digit, which goes on to a larger number.
digit :
    (c m n : ℕ) (s : Bytes)
    → parse_digits m (c ∷ s) ≡ some n
    → (is_ascii_digit c ≡ true) × (parse_digits (m * 10 + (c - b'0')) s ≡ some n)
unfolding parse_digits
digit c m n s h = ground arith

parse_digits_le : (s : Bytes) (m n : ℕ) → parse_digits m s ≡ some n → m ≤ n
parse_digits_le [] m n h = unfold parse_digits in ground arith
parse_digits_le (c ∷ s) m n h =
    omega (arith, parse_digits_le s (m * 10 + (c - b'0')) n ((digit c m n s h).1))

low_nibble : (c : ℕ) → is_ascii_digit c ≡ true → c % 16 ≡ c - b'0'
low_nibble c h = ground arith

not_lf : (c : ℕ) → is_ascii_digit c ≡ true → (c == lf) ≡ false
not_lf c h = ground arith

module _ (w : ℕ) where
  checked_push-fits :
      (c m : ℕ)
      → is_ascii_digit c ≡ true
      → m * 10 + (c - b'0') < 2 ^ w
      → checked_push w m c ≡ some (m * 10 + (c - b'0'))
  unfolding checked_push
  checked_push-fits c m h k =
      let a : ltb (m * 10) (2 ^ w) ≡ true = ground arith in
      let b : ltb (m * 10 + (c - b'0')) (2 ^ w) ≡ true = ground arith in
      rw (checked_push, a, low_nibble c h, b)

  checked_push-overflow :
      (c m : ℕ) → is_ascii_digit c ≡ true → 2 ^ w ≤ m * 10 + (c - b'0') → checked_push w m c ≡ none
  unfolding checked_push
  checked_push-overflow c m h k =
      let b : ltb (m * 10 + (c - b'0')) (2 ^ w) ≡ false = ground arith in
      elim (Bool-cases (ltb (m * 10) (2 ^ w))) [
        | inl a ↦ rw (checked_push, a, low_nibble c h, b)
        | inr a ↦ rw (checked_push, a)
      ]

  pub update-fits :
      (c m : ℕ)
      → is_ascii_digit c ≡ true
      → m * 10 + (c - b'0') < 2 ^ w
      → unsigned_update w m tt c ≡ (m * 10 + (c - b'0'), tt, true)
  unfolding unsigned_update
  update-fits c m h k = rw (unsigned_update, checked_push-fits c m h k, h)

  pub update-overflow :
      (c m : ℕ)
      → is_ascii_digit c ≡ true
      → 2 ^ w ≤ m * 10 + (c - b'0')
      → unsigned_update w m tt c ≡ (m, tt, false)
  unfolding unsigned_update
  update-overflow c m h k = rw (unsigned_update, checked_push-overflow c m h k)

  pub scan-fits :
      (s : Bytes) (m n : ℕ) (d : Decoder) (rest : Bytes)
      → parse_digits m s ≡ some n
      → n < 2 ^ w
      → scan (unsigned w) (number m) d (s ++ lf ∷ rest)
        ≡ done (completed (number n)) (decoder d.b (d.i + length s + 1))
  scan-fits [] m n d rest h k =
      let same : number m ≡ number n = ap number (unfold parse_digits in ground arith) in
      let behind : d.i + 1 ≡ d.i + 0 + 1 = omega arith in
      unfold scan scan_end in rw (same, behind) refl
  scan-fits (c ∷ s) m n d rest h k =
      let (is_digit, next_digits) = digit c m n s h in
      let fits : m * 10 + (c - b'0') < 2 ^ w =
        omega (arith, parse_digits_le s (m * 10 + (c - b'0')) n next_digits) in
      let step = update-fits c m is_digit fits in
      let behind : d.i + 1 + length s + 1 ≡ d.i + suc (length s) + 1 = omega arith in
      rw (
        scan_accepted (unsigned w) (number m) d c (s ++ lf ∷ rest) (not_lf c is_digit)
            (rw step refl),
        step,
        scan-fits s (m * 10 + (c - b'0')) n (decoder d.b (d.i + 1)) rest next_digits k,
        behind,
      )

  scan-overflow :
      (s : Bytes) (m n : ℕ) (d : Decoder) (rest : Bytes)
      → parse_digits m s ≡ some n
      → m < 2 ^ w
      → 2 ^ w ≤ n
      → Refused (scan (unsigned w) (number m) d (s ++ lf ∷ rest))
  scan-overflow [] m n d rest h l k =
      let same : m ≡ n = unfold parse_digits in ground arith in absurd (omega arith)
  scan-overflow (c ∷ s) m n d rest h l k =
      let (is_digit, next_digits) = digit c m n s h in
      let v : ℕ = m * 10 + (c - b'0') in
      let later = scan-overflow s v n (decoder d.b (d.i + 1)) rest next_digits in
      elim (dec_lt v (2 ^ w)) [
        | yes fits ↦
            let step = update-fits c m is_digit fits in
            rw
              (
                scan_accepted (unsigned w) (number m) d c (s ++ lf ∷ rest) (not_lf c is_digit)
                    (rw step refl),
                step,
              )
              (later fits k)
        | no more ↦
            let step = update-overflow c m is_digit (omega arith) in
            rw
              (scan_refused (unsigned w) (number m) d c (s ++ lf ∷ rest) (not_lf c is_digit)
                (rw step refl))
              refl
      ]

  -- What is decoded of the number `n`: itself, at `d`, if it fits.
  abbrev pub Reads :
      Bool
      → ℕ
      → Decoder
      → Outcome (ProtocolObjectDecodeState (LfsValue ℕ (Unit {0})) (LfsValue ℕ (Unit {0})))
      → Type 0
  Reads true n d out = out ≡ done (completed (number n)) d
  Reads false n d out = Refused out

  -- A line of decimal digits is decoded by the unsigned type of `w` bits to the number that the digits
  -- write, at the byte behind the line feed, when the number is less than 2 ^ w, and is refused as bad
  -- data when it is not. It is asked that the line stands at the position, that the digits write a
  -- number, and that the buffer and the position are valid.
  pub complete-digits :
      (s : Bytes) (n : ℕ) (d : Decoder) (rest : Bytes)
      → IsValid d
      → drop d.i d.b ≡ s ++ lf ∷ rest
      → parse_magnitude s ≡ some n
      → Reads
          (ltb n (2 ^ w))
          n
          (decoder d.b (d.i + length s + 1))
          (complete (unsigned w) (initialize (unsigned w) d) d)
  unfolding initialize
  complete-digits [] n d rest v e h = absurd (unfold parse_magnitude in cc)
  complete-digits (c ∷ s) n d rest v e h =
      let digits : parse_digits 0 (c ∷ s) ≡ some n = unfold parse_magnitude in h in
      elim (dec_lt n (2 ^ w)) [
        | yes fits ↦
            let small : ltb n (2 ^ w) ≡ true = ground arith in
            rw (small, complete-scan (unsigned w) (number 0) d ((c ∷ s) ++ lf ∷ rest) v e)
              (scan-fits (c ∷ s) 0 n d rest digits fits)
        | no more ↦
            let large : ltb n (2 ^ w) ≡ false = ground arith in
            rw (large, complete-scan (unsigned w) (number 0) d ((c ∷ s) ++ lf ∷ rest) v e)
              (scan-overflow (c ∷ s) 0 n d rest digits (two_pow_pos w) (omega arith))
      ]
