-- ===== src/Protocol/Wire/Sound/Values.antt =====
-- The values that `PendingValue::next_value_with_code` of src/protocol/mod.rs has read, by their codes.
use client_rust.Prelude.{
  ℕ, ◌≤◌, ◌<◌, ◌≡◌, refl, sym, true, false, [], ◌∷◌, length, drop, arith, ltb, ◌==◌, dec_lt,
  get_elem?-drop, if◌then◌else◌, subst,
}
use client_rust.Std.{FloatParse, parse_signed, pos}
use client_rust.Response.{Value}
use client_rust.Protocol.Outcome.{Decoder, done, bind}
use client_rust.Protocol.Cursor.Laws.{next_lem, eof_lem}
use client_rust.Protocol.Extend.{IsValid}
use client_rust.Protocol.State.{completed}
use client_rust.Protocol.Sp.{finish_binary, finish_string}
use client_rust.Protocol.Value.{
  PendingValue, StreamLoop, items, complete_value, decode_bool, initialize_stream, complete_stream,
  next_value_with_code, next_value,
}
use client_rust.Protocol.Wire.{WireValue}
use client_rust.Protocol.Wire.At.{past, past-IsValid, past_nil}
use client_rust.Protocol.Wire.Sound.{Sent, Sent-behind, Sent-choice, Sent-convert, Sent-map}
use client_rust.Protocol.Wire.Sound.Blocks.{finish_binary-Tests, finish_string-Tests}
use client_rust.Protocol.Wire.Sound.Codes.{
  StreamSent, Coded, next_byte, unsigned-Coded, parsed-Coded, block-Coded, complete_stream-Sent,
}

pub same_code : (c k : ℕ) → (c == k) ≡ true → c ≡ k
same_code c k h = ground arith

-- The byte of a truth value.
bool_byte : (x : ℕ) → x ≤ 1 → x ≡ (if (x == 1) then 1 else 0)
bool_byte x h = ground arith

module _ (fp : FloatParse) (stream : StreamLoop) (sent : StreamSent fp stream) where
  null-Coded :
      (d : Decoder) → IsValid d → Coded fp stream sent 0x00 d (done (completed Value.null) d)
  null-Coded d v = ([], drop d.i d.b, (v, refl), WireValue.null, sym (past_nil d))

  bool-Coded : (d : Decoder) → IsValid d → Coded fp stream sent 0x01 d (decode_bool d)
  unfolding decode_bool
  bool-Coded d v = elim (dec_lt d.i (length d.b)) [
    | no past_end ↦
        let at_end : (d.i == length d.b) ≡ true = ground (arith, v.1) in
        rw (eof_lem d v.1, at_end) tt
    | yes inside ↦
        let more_left : (d.i == length d.b) ≡ false = ground arith in
        let (x, rest, e) = next_byte d inside in
        let read = next_lem d x (get_elem?-drop d.i d.b e) in
        elim (dec_lt 1 x) [
          | yes large ↦
              let refused : ltb 1 x ≡ true = ground arith in
              rw (eof_lem d v.1, more_left) (rw read (rw (bind, refused) tt))
          | no small ↦
              let accepted : ltb 1 x ≡ false = ground arith in
              rw (eof_lem d v.1, more_left)
                (rw read (
                  rw (bind, accepted)
                    (
                      x ∷ [],
                      rest,
                      (v, e),
                      subst (λ y. WireValue fp (Value.bool (x == 1)) (0x01 ∷ y ∷ []))
                          (sym (bool_byte x (omega arith))) (WireValue.bool (x == 1)),
                      refl,
                    )))
        ]
  ]

  list-Coded :
      (d : Decoder)
      → IsValid d
      → Coded fp stream sent 0x0E d (
          complete_value
            (complete_stream stream)
            (λ x. Value.list (items x))
            PendingValue.list
            (initialize_stream d)
            d)
  unfolding complete_value
  list-Coded d v =
      Sent-convert (λ x. Value.list (items x)) PendingValue.list _ d _
        (Sent-map _ _ d _
          (λ vs t (s, u, e, digits, wire).
            subst (λ z. WireValue fp (Value.list (items vs)) (0x0E ∷ z)) (sym e)
              (WireValue.list s digits wire))
          (complete_stream-Sent fp stream sent d v))

  pub next_value_with_code-Sent :
      (c : ℕ) (d : Decoder)
      → IsValid d
      → Coded fp stream sent c d (next_value_with_code fp stream c d)
  unfolding next_value_with_code
  next_value_with_code-Sent c d v =
      (Sent-choice _ d (c == 0x00) _ _ (λ e. rw (same_code c 0x00 e) (null-Coded d v))
        (Sent-choice _ d (c == 0x01) _ _ (λ e. rw (same_code c 0x01 e) (bool-Coded d v))
          (Sent-choice _ d (c == 0x02) _ _
            (λ e. rw (same_code c 0x02 e) (
              unsigned-Coded fp stream sent 0x02 8 Value.uint8 PendingValue.uint8 d v
                WireValue.uint8))
            (Sent-choice _ d (c == 0x03) _ _
              (λ e. rw (same_code c 0x03 e) (
                unsigned-Coded fp stream sent 0x03 16 Value.uint16 PendingValue.uint16 d v
                  WireValue.uint16))
              (Sent-choice _ d (c == 0x04) _ _
                (λ e. rw (same_code c 0x04 e) (
                  unsigned-Coded fp stream sent 0x04 32 Value.uint32 PendingValue.uint32 d v
                    WireValue.uint32))
                (Sent-choice _ d (c == 0x05) _ _
                  (λ e. rw (same_code c 0x05 e) (
                    unsigned-Coded fp stream sent 0x05 64 Value.uint64 PendingValue.uint64 d v
                      WireValue.uint64))
                  (Sent-choice _ d (c == 0x06) _ _
                    (λ e. rw (same_code c 0x06 e) (
                      parsed-Coded fp stream sent 0x06 (pos 0) (parse_signed 8) Value.sint8
                        PendingValue.sint8 d v WireValue.sint8))
                    (Sent-choice _ d (c == 0x07) _ _
                      (λ e. rw (same_code c 0x07 e) (
                        parsed-Coded fp stream sent 0x07 (pos 0) (parse_signed 16) Value.sint16
                          PendingValue.sint16 d v WireValue.sint16))
                      (Sent-choice _ d (c == 0x08) _ _
                        (λ e. rw (same_code c 0x08 e) (
                          parsed-Coded fp stream sent 0x08 (pos 0) (parse_signed 32) Value.sint32
                            PendingValue.sint32 d v WireValue.sint32))
                        (Sent-choice _ d (c == 0x09) _ _
                          (λ e. rw (same_code c 0x09 e) (
                            parsed-Coded fp stream sent 0x09 (pos 0) (parse_signed 64) Value.sint64
                              PendingValue.sint64 d v WireValue.sint64))
                          (Sent-choice _ d (c == 0x0A) _ _
                            (λ e. rw (same_code c 0x0A e) (
                              parsed-Coded fp stream sent 0x0A 0 fp.parse_f32 Value.float32
                                PendingValue.float32 d v WireValue.float32))
                            (Sent-choice _ d (c == 0x0B) _ _
                              (λ e. rw (same_code c 0x0B e) (
                                parsed-Coded fp stream sent 0x0B 0 fp.parse_f64 Value.float64
                                  PendingValue.float64 d v WireValue.float64))
                              (Sent-choice _ d (c == 0x0C) _ _
                                (λ e. rw (same_code c 0x0C e) (
                                  block-Coded fp stream sent 0x0C finish_binary _
                                    finish_binary-Tests Value.binary PendingValue.binary d v
                                    (λ b s h g. WireValue.binary b s h)))
                                (Sent-choice _ d (c == 0x0D) _ _
                                  (λ e. rw (same_code c 0x0D e) (
                                    block-Coded fp stream sent 0x0D finish_string _
                                      finish_string-Tests Value.string PendingValue.string d v
                                      WireValue.string))
                                  (Sent-choice _ d (c == 0x0E) _ _
                                    (λ e. rw (same_code c 0x0E e) (list-Coded d v))
                                    tt)))))))))))))))

  -- The code and what is behind it.
  pub next_value-Sent :
      (d : Decoder) → IsValid d → d.i < length d.b → Sent (WireValue fp) d (next_value fp stream d)
  unfolding next_value
  next_value-Sent d v inside =
      let (c, rest, e) = next_byte d inside in
      rw (next_lem d c (get_elem?-drop d.i d.b e)) (
        Sent-behind _ (WireValue fp) d (c ∷ []) rest _ (v, e) (λ x t w. w)
          (next_value_with_code-Sent c (past d (c ∷ [])) (past-IsValid d (c ∷ []) rest (v, e))))
