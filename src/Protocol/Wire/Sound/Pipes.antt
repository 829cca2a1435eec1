-- ===== src/Protocol/Wire/Sound/Pipes.antt =====
-- The responses that `validate_pipe` of src/protocol/pipe.rs has read.
use client_rust.Prelude.{
  ℕ, zero, suc, ◌<◌, ◌≡◌, refl, sym, subst, ◌∙◌, Bytes, List, [], ◌∷◌, ◌++◌, none, length, drop,
  arith, dec_lt, Bool-cases, inl, inr, true, false, ◌==◌, append_assoc, append-nil,
}
use client_rust.Std.{FloatParse}
use client_rust.Error.{invalid_packet}
use client_rust.Response.{Response}
use client_rust.Protocol.Outcome.{Decoder, fail, bind}
use client_rust.Protocol.Cursor.{decoder}
use client_rust.Protocol.Cursor.Laws.{eof_lem, cursor_value_lem}
use client_rust.Protocol.Extend.{IsValid}
use client_rust.Protocol.Pipe.{
  illegal_packet_escape, MRespState, default, with_response, pipe_loop, pipe_round, pipe_packet,
  validate_pipe,
}
use client_rust.Protocol.Pipe.Rounds.{round_end, round_next}
use client_rust.Protocol.Wire.{WireResponses}
use client_rust.Protocol.Wire.At.{past, past-IsValid, past_nil}
use client_rust.Protocol.Wire.Sound.{Sent, Sent-bind, Sent-behind, Sent-map}
use client_rust.Protocol.Wire.Sound.Codes.{next_byte}
use client_rust.Protocol.Wire.Sound.Responses.{validate-Sent}

-- The responses that follow those that were there before, up to the expected number.
abbrev Added : FloatParse → ℕ → List Response → List Response → Bytes → Type 0
Added fp expected before all t =
    (rs : List Response) × (all ≡ before ++ rs) × (length all ≡ expected) × WireResponses fp rs t

-- As many responses as are expected, in the wire format.
abbrev pub AllWire : FloatParse → ℕ → List Response → Bytes → Type 0
AllWire fp expected rs t = (length rs ≡ expected) × WireResponses fp rs t

module _ (fp : FloatParse) (expected : ℕ) where
  abbrev collected : List Response → MRespState
  collected before = record { processed = before; pending = none }

  round_escape :
      (f : ℕ) (self : MRespState) (d : Decoder) {x : ℕ} {r : Bytes}
      → d.i < length d.b
      → drop d.i d.b ≡ x ∷ r
      → (x == illegal_packet_escape) ≡ true
      → pipe_loop fp (suc f) expected self d ≡ fail invalid_packet (decoder d.b 0)
  unfolding pipe_loop pipe_round pipe_packet
  round_escape f self d h e escape =
      let more_left : (d.i == length d.b) ≡ false = ground arith in
      rw (eof_lem d (omega arith), more_left)
        (rw (cursor_value_lem d (omega arith) e) (rw (bind, escape)))

  pipe_loop-Sent :
      (f : ℕ) (before : List Response) (d : Decoder)
      → IsValid d
      → Sent (Added fp expected before) d (pipe_loop fp f expected (collected before) d)
  pipe_loop-Sent zero before d v = unfold pipe_loop in tt
  pipe_loop-Sent (suc f) before d v = elim (dec_lt d.i (length d.b)) [
    | no past_end ↦ rw (round_end fp expected f (collected before) d (omega (arith, v.1))) tt
    | yes inside ↦
        let (c, rest, e) = next_byte d inside in
        elim (Bool-cases (c == illegal_packet_escape)) [
          | inl escape ↦ rw (round_escape f (collected before) d inside e escape) tt
          | inr other ↦ rw (round_next fp expected f (collected before) d inside e other) (
              Sent-bind _ _ d _ _ (validate-Sent fp d inside)
                (λ r s after at w.
                  let valid = past-IsValid d s after at in
                  Sent-behind (Added fp expected (before ++ r ∷ [])) (Added fp expected before) d s
                    after _ at
                    (λ all t (rs, same, count, ws). (
                      r ∷ rs,
                      same ∙ append_assoc before (r ∷ []) rs,
                      count,
                      WireResponses.cons w ws,
                    ))
                    (elim (Bool-cases (length (before ++ r ∷ []) == expected)) [
                      | inl last ↦
                          rw (with_response, last)
                            (
                              [],
                              drop (past d s).i d.b,
                              (valid, refl),
                              (
                                [],
                                sym (append-nil (before ++ r ∷ [])),
                                ground arith,
                                WireResponses.nil,
                              ),
                              sym (past_nil (past d s)),
                            )
                      | inr more ↦
                          rw (with_response, more)
                            (pipe_loop-Sent f (before ++ r ∷ []) (past d s) valid)
                    ]))
                (λ p d'. tt))
        ]
  ]

-- The responses of a pipeline that are decoded are as many as are expected, and they are those that the
-- bytes at the position of the decoder write in the wire format, in their order.
pub validate_pipe-Sent :
    (fp : FloatParse) (expected : ℕ) (d : Decoder)
    → IsValid d
    → Sent (AllWire fp expected) d (validate_pipe fp expected default d)
unfolding validate_pipe
validate_pipe-Sent fp expected d v =
    Sent-map _ _ d _
      (λ all t (rs, same, count, ws). (count, subst (λ z. WireResponses fp z t) (sym same) ws))
      (pipe_loop-Sent fp expected _ [] d v)
