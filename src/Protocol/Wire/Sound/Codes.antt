-- ===== src/Protocol/Wire/Sound/Codes.antt =====
-- The values that `PendingValue::next_value` of src/protocol/mod.rs has read, over any `_complete`.
use client_rust.Prelude.{
  ℕ, ◌+◌, ◌<◌, ◌≡◌, sym, ap, ◌∙◌, Bytes, [], ◌∷◌, ◌++◌, length, drop, arith, lf, Option, All,
  All-drop, subst,
}
use client_rust.Std.{FloatParse}
use client_rust.Response.{Value, Values, nil, count}
use client_rust.Protocol.Outcome.{Decoder, Outcome}
use client_rust.Protocol.Extend.{IsValid}
use client_rust.Protocol.State.{completed}
use client_rust.Protocol.Lfs
use client_rust.Protocol.Lfs.{LfsValue, unsigned, signed, parsed, float32_object, float64_object}
use client_rust.Protocol.Sp
use client_rust.Protocol.Sp.{SizeState, finish_binary, finish_string, pending_size}
use client_rust.Protocol.Value.{
  PendingValue, ValueState, StreamLoop, value_stream, absent, items, complete_value,
  initialize_stream, complete_stream,
}
use client_rust.Protocol.Wire.{WireValue, WireValues, Digits, Line}
use client_rust.Protocol.Wire.At.{past, past-IsValid}
use client_rust.Protocol.Wire.Codes.{push_all, push_all-nil}
use client_rust.Protocol.Wire.Sound.{Sent, Sent-bind, Sent-behind, Sent-convert, Sent-map}
use client_rust.Protocol.Wire.Sound.Lines.{unsigned-Sent, parsed-Sent, complete_size-Sent}
use client_rust.Protocol.Wire.Sound.Blocks.{Tests, block-Sent}

every : (s : Bytes) → All (λ _. Unit {0}) s
every [] = tt
every (x ∷ s) = (tt, every s)

-- The byte at a position in the buffer.
pub next_byte :
    (d : Decoder) → d.i < length d.b → (c : ℕ) × (rest : Bytes) × (drop d.i d.b ≡ c ∷ rest)
next_byte d h = let (x, rest, e, u) = All-drop (λ _. Unit {0}) d.i d.b (every d.b) h in (x, rest, e)

-- What the loop has read when it completes a list.
abbrev pub StreamSent : FloatParse → StreamLoop → Type 0
StreamSent fp stream =
    (n : SizeState) (ws : Values) (size : ℕ) (d : Decoder)
    → IsValid d
    → Sent
        (λ vs t.
          (us : Values) × (items vs ≡ push_all ws us)
          × WireValues fp us t
          × (count ws + count us ≡ size))
        d (stream (value_stream n ws absent) size d)

module _ (fp : FloatParse) (stream : StreamLoop) (sent : StreamSent fp stream) where
  -- The value of a code, from the bytes behind the code.
  abbrev pub Coded : ℕ → Decoder → Outcome ValueState → Type 0
  Coded c d out = Sent (λ v t. WireValue fp v (c ∷ t)) d out

  pub unsigned-Coded :
      (c w : ℕ) (into : ℕ → Value) (back : LfsValue ℕ (Unit {0}) → PendingValue) (d : Decoder)
      → IsValid d
      → ((n : ℕ) (s : Bytes) → Digits w s n → WireValue fp (into n) (c ∷ (s ++ lf ∷ [])))
      → Coded c d (
          complete_value
            (Lfs.complete (unsigned w))
            (λ x. into x.v)
            back
            (Lfs.initialize (unsigned w) d)
            d)
  unfolding complete_value
  unsigned-Coded c w into back d v wire =
      Sent-convert (λ x. into x.v) back _ d _
        (Sent-map _ _ d _
          (λ x t (s, e, digits).
            subst (λ u. WireValue fp (into x.v) (c ∷ u)) (sym e) (wire x.v s digits))
          (unsigned-Sent w d v))

  pub parsed-Coded :
      {A : Type 0} (c : ℕ) (default : A) (parse : Bytes → Option A) (into : A → Value)
      (back : LfsValue A ℕ → PendingValue) (d : Decoder)
      → IsValid d
      → ((a : A) (s : Bytes) → Line parse s a → WireValue fp (into a) (c ∷ (s ++ lf ∷ [])))
      → Coded c d (
          complete_value
            (Lfs.complete (parsed default parse))
            (λ x. into x.v)
            back
            (Lfs.initialize (parsed default parse) d)
            d)
  unfolding complete_value
  parsed-Coded c default parse into back d v wire =
      Sent-convert (λ x. into x.v) back _ d _
        (Sent-map _ _ d _
          (λ x t (s, e, line).
            subst (λ u. WireValue fp (into x.v) (c ∷ u)) (sym e) (wire x.v s line))
          (parsed-Sent default parse d v))

  pub block-Coded :
      (c : ℕ) (finish : Sp.Finish) (G : Bytes → Type 0) (tests : Tests finish G)
      (into : Bytes → Value) (back : Sp.SpObjectState → PendingValue) (d : Decoder)
      → IsValid d
      → ((v s : Bytes)
          → Digits 64 s (length v)
          → G v
          → WireValue fp (into v) (c ∷ ((s ++ lf ∷ []) ++ v)))
      → Coded c d (complete_value (Sp.complete finish) (λ x. into x.v) back (Sp.initialize d) d)
  unfolding complete_value
  block-Coded c finish G tests into back d v wire =
      Sent-convert (λ x. into x.v) back _ d _
        (Sent-map _ _ d _
          (λ y t (s, e, digits, good).
            subst (λ u. WireValue fp (into y.v) (c ∷ u)) (sym e) (wire y.v s digits good))
          (block-Sent finish G tests d v))

  pub complete_stream-Sent :
      (d : Decoder)
      → IsValid d
      → Sent
          (λ vs t.
            (s : Bytes) × (u : Bytes) × (t ≡ (s ++ lf ∷ []) ++ u)
            × Digits 64 s (count (items vs))
            × WireValues fp (items vs) u)
          d
          (complete_stream stream (initialize_stream d) d)
  unfolding complete_stream initialize_stream
  complete_stream-Sent d v =
      Sent-bind _ _ d _ _ (complete_size-Sent d d v)
        (λ n t rest at (s, e, digits).
          Sent-behind _ _ d t rest _ at
            (λ vs u (us, same, wire, all).
              let these : items vs ≡ us = same ∙ push_all-nil us in
              let size : count (items vs) ≡ n = omega (arith, all, ap count these) in
              (s, u, ap (λ z. z ++ u) e, rw size digits, rw these wire))
            (sent (completed n) nil n (past d t) (past-IsValid d t rest at)))
        (λ p d'. tt)
