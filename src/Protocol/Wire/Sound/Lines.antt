-- ===== src/Protocol/Wire/Sound/Lines.antt =====
-- The lines that `LfsValue::complete` of src/protocol/mod.rs has read when it completes an object.
use client_rust.Prelude.{
  ℕ, ◌+◌, ◌-◌, ◌*◌, ◌^◌, ◌≤◌, ◌<◌, ◌≡◌, refl, sym, ap, ◌∙◌, All, All-append, Bool, true, false,
  Bytes, [], ◌∷◌, ◌++◌, Option, some, none, length, drop, arith, append_assoc, lf, ◌==◌, dec_lt,
  Bool-cases, inl, inr, length-append, if◌then◌else◌, drop-take-prefix,
}
use client_rust.Prelude.Powers.{two_pow_pos}
use client_rust.Error.{invalid_server_response_for_data}
use client_rust.Std.{is_utf8, is_ascii_digit, parse_digits}
use client_rust.Protocol.Outcome.{Decoder, done, fail}
use client_rust.Protocol.Cursor.{decoder, slice}
use client_rust.Protocol.Cursor.Laws.{slice_lem}
use client_rust.Protocol.Extend.{IsValid}
use client_rust.Protocol.State.{try_complete}
use client_rust.Protocol.Lfs.{
  LfsObject, LfsValue, updated, checked_push, unsigned_update, unsigned, parsed, parse_block,
  complete, initialize,
}
use client_rust.Protocol.Lfs.Objects.{parsed_block, parse_block_lem}
use client_rust.Protocol.Lfs.Numbers.{update-fits, update-overflow}
use client_rust.Protocol.Lfs.Scan.{
  scan, scan_end, scan_nil, scan_line_feed, scan_accepted, scan_refused, complete-scan,
}
use client_rust.Protocol.Sp.{complete_size, pending_size}
use client_rust.Protocol.Wire.{Digits, Line}
use client_rust.Protocol.Wire.At.{At, past, At-room}
use client_rust.Protocol.Wire.Sound.{Sent, Sent-convert}

-- A line whose text satisfies `P` with the object.
abbrev pub LineOf : {T S : Type 0} → (T → Bytes → Type 0) → LfsValue T S → Bytes → Type 0
LineOf P x t = (s : Bytes) × (t ≡ s ++ lf ∷ []) × P x.v s

module _ {T S : Type 0} (o : LfsObject T S) (I : LfsValue T S → Bytes → Type 0)
    (P : T → Bytes → Type 0) (b : Bytes) (start : ℕ) (some_bytes : 0 < length b)
    (inside : start ≤ length b)
    (step : (x : LfsValue T S) (pre : Bytes) (c : ℕ)
      → I x pre
      → (c == lf) ≡ false
      → (updated o x c).1 ≡ true
      → I ((updated o x c).0) (pre ++ c ∷ []))
    (last : (x : LfsValue T S) (pre rest : Bytes)
      → I x pre
      → drop start b ≡ (pre ++ lf ∷ []) ++ rest
      → Sent (LineOf P) (decoder b start) (scan_end o x (decoder b (start + length pre + 1)))) where
  scan-Sent :
      (r pre : Bytes) (x : LfsValue T S)
      → I x pre
      → drop start b ≡ pre ++ r
      → Sent (LineOf P) (decoder b start) (scan o x (decoder b (start + length pre)) r)
  scan-Sent [] pre x h e = rw (scan_nil o x (decoder b (start + length pre))) tt
  scan-Sent (c ∷ r) pre x h e = elim (Bool-cases (c == lf)) [
    | inl line_feed ↦
        let same : c ≡ lf = ground arith in
        rw (scan_line_feed o x (decoder b (start + length pre)) c r line_feed)
          (last x pre r h (e ∙ ap (λ z. pre ++ z ∷ r) same ∙ sym (append_assoc pre (lf ∷ []) r)))
    | inr other ↦ elim (Bool-cases ((updated o x c).1)) [
      | inl accepted ↦
          let here : start + length (pre ++ c ∷ []) ≡ start + length pre + 1 =
            omega (arith, length-append pre (c ∷ [])) in
          rw (scan_accepted o x (decoder b (start + length pre)) c r other accepted) (
            rw here at (
              scan-Sent r (pre ++ c ∷ []) ((updated o x c).0) (step x pre c h other accepted)
                (e ∙ sym (append_assoc pre (c ∷ []) r))))
      | inr refused ↦ rw (scan_refused o x (decoder b (start + length pre)) c r other refused) tt
    ]
  ]

-- The digits that were read, and what the update of a number accepts.
parse_digits-snoc :
    (s : Bytes) (k m c : ℕ)
    → parse_digits k s ≡ some m
    → is_ascii_digit c ≡ true
    → parse_digits k (s ++ c ∷ []) ≡ some (m * 10 + (c - b'0'))
unfolding parse_digits
parse_digits-snoc [] k m c h d = let same : k ≡ m = ground arith in rw (parse_digits, d, same)
parse_digits-snoc (x ∷ s) k m c h d = elim (Bool-cases (is_ascii_digit x)) [
  | inl digit ↦
      rw (parse_digits, digit)
        (parse_digits-snoc s (k * 10 + (x - b'0')) m c (rw (parse_digits, digit) at h) d)
  | inr other ↦ absurd (ground arith)
]

-- What is not a digit is refused, whatever the sum would be.
no_digit :
    (m c : ℕ) (p : Option ℕ)
    → is_ascii_digit c ≡ false
    → (elim p as (λ _. ℕ × Unit {0} × Bool) [
      | none ↦ (m, tt, false)
      | some v ↦ if is_ascii_digit c then (v, tt, true) else (m, tt, false)
    ]).2
      ≡ false
no_digit m c none h = refl
no_digit m c (some v) h = rw h

module _ (w : ℕ) where
  update-accepted :
      (m c : ℕ)
      → (unsigned_update w m tt c).2 ≡ true
      → (is_ascii_digit c ≡ true)
        × (m * 10 + (c - b'0') < 2 ^ w)
        × ((unsigned_update w m tt c).0 ≡ m * 10 + (c - b'0'))
  update-accepted m c h = elim (Bool-cases (is_ascii_digit c)) [
    | inl digit ↦ elim (dec_lt (m * 10 + (c - b'0')) (2 ^ w)) [
      | yes fits ↦ (digit, fits, ap (λ u. u.0) (update-fits w c m digit fits))
      | no more ↦
          let refused : (unsigned_update w m tt c).2 ≡ false =
            ap (λ u. u.2) (update-overflow w c m digit (omega arith)) in
          cc
    ]
    | inr other ↦
        let refused : (unsigned_update w m tt c).2 ≡ false =
          unfold unsigned_update in no_digit m c (checked_push w m c) other in
        cc
  ]

  -- The number that was read so far.
  abbrev SoFar : LfsValue ℕ (Unit {0}) → Bytes → Type 0
  SoFar x pre = (parse_digits 0 pre ≡ some x.v) × (x.v < 2 ^ w)

  pub unsigned-Sent :
      (d : Decoder)
      → IsValid d
      → Sent (LineOf (λ n s. Digits w s n)) d (complete (unsigned w) (initialize (unsigned w) d) d)
  unfolding initialize
  unsigned-Sent d v =
      let start : decoder d.b (d.i + 0) ≡ d = ap (decoder d.b) (omega arith) in
      rw (complete-scan (unsigned w) _ d (drop d.i d.b) v refl) (
        rw start at (
          scan-Sent (unsigned w) SoFar (λ n s. Digits w s n) d.b d.i v.0 v.1
            (λ x pre c h other accepted.
              let (digit, fits, value) = update-accepted x.v c accepted in
              (rw value (parse_digits-snoc pre 0 x.v c h.0 digit), rw value fits))
            (λ x pre rest h e.
              let behind : d.i + length pre + 1 ≡ d.i + length (pre ++ lf ∷ []) =
                omega (arith, length-append pre (lf ∷ [])) in
              unfold scan_end in
              (pre ++ lf ∷ [], rest, (v, e), (pre, refl, h), ap (decoder d.b) behind))
            (drop d.i d.b) [] (record { v = 0; state = tt })
            (unfold parse_digits in refl, two_pow_pos w) refl))

module _ {A : Type 0} (default : A) (parse : Bytes → Option A) where
  parsed_block-some :
      (s : Bytes) (a : A) → parsed_block parse s ≡ some a → (parse s ≡ some a) × (is_utf8 s ≡ true)
  parsed_block-some s a h = elim (Bool-cases (is_utf8 s)) [
    | inl valid ↦ (rw (parsed_block, valid) at h, valid)
    | inr other ↦ absurd (ground arith)
  ]

  -- The text so far, behind the position where it began.
  abbrev TextSoFar : ℕ → LfsValue A ℕ → Bytes → Type 0
  TextSoFar start x pre = (x.state ≡ start) × All (λ c. (c == lf) ≡ false) pre

  ended :
      (d d' : Decoder) (x : LfsValue A ℕ) (pre rest : Bytes) (p : Option A)
      → At d (pre ++ lf ∷ []) rest
      → All (λ c. (c == lf) ≡ false) pre
      → parsed_block parse pre ≡ p
      → parse_block parse x.state d'
        ≡ elim p [ some a ↦ done a d' | none ↦ fail invalid_server_response_for_data d' ]
      → d' ≡ past d (pre ++ lf ∷ [])
      → Sent (LineOf (λ a s. Line parse s a)) d (scan_end (parsed default parse) x d')
  unfolding scan_end
  ended d d' x pre rest (some a) at one_line h e behind =
      let (parses, valid) = parsed_block-some pre a h in
      rw e (pre ++ lf ∷ [], rest, at, (pre, refl, (parses, valid, one_line)), behind)
  ended d d' x pre rest none at one_line h e behind = rw e tt

  pub parsed-Sent :
      (d : Decoder)
      → IsValid d
      → Sent
          (LineOf (λ a s. Line parse s a))
          d
          (complete (parsed default parse) (initialize (parsed default parse) d) d)
  unfolding initialize
  parsed-Sent d v =
      let start : decoder d.b (d.i + 0) ≡ d = ap (decoder d.b) (omega arith) in
      rw (complete-scan (parsed default parse) _ d (drop d.i d.b) v refl) (
        rw start at (
          scan-Sent (parsed default parse) (TextSoFar d.i) (λ a s. Line parse s a) d.b d.i v.0 v.1
            (λ x pre c h other accepted. (h.0, All-append _ pre (c ∷ []) h.1 (other, tt)))
            (λ x pre rest h e.
              let d' : Decoder = decoder d.b (d.i + length pre + 1) in
              let behind : d' ≡ past d (pre ++ lf ∷ []) =
                ap (decoder d.b) (omega (arith, length-append pre (lf ∷ []))) in
              let room = At-room d (pre ++ lf ∷ []) rest (v, e) in
              let last_byte : d.i + length pre + 1 - 1 ≡ d.i + length pre = omega arith in
              let block : slice d.b d.i (d'.i - 1) d' ≡ done pre d' = rw (
                slice_lem d.b d.i (d'.i - 1) d' (omega arith)
                    (omega (arith, room, length-append pre (lf ∷ []))),
                last_byte,
                drop-take-prefix d.i d.b pre (lf ∷ rest) (e ∙ append_assoc pre (lf ∷ []) rest),
              ) in
              ended d d' x pre rest (parsed_block parse pre) (v, e) h.1 refl
                (rw h.0 (parse_block_lem parse d.i d' pre block)) behind)
            (drop d.i d.b) [] (record { v = default; state = d.i }) (refl, tt) refl))

-- The size of a block or the count of a list.
pub complete_size-Sent :
    (d d₀ : Decoder)
    → IsValid d
    → Sent
        (λ n t. (s : Bytes) × (t ≡ s ++ lf ∷ []) × Digits 64 s n)
        d
        (complete_size (pending_size d₀) d)
unfolding complete_size try_complete initialize
complete_size-Sent d d₀ v =
    Sent-convert (λ x. x.v) (λ p. p) _ d (complete (unsigned 64) (initialize (unsigned 64) d) d)
      (unsigned-Sent 64 d v)
