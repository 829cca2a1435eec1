-- ===== src/Protocol/Pipe/Count.antt =====
-- The number of responses that `validate_pipe` of src/protocol/pipe.rs collects.
use client_rust.Prelude.{
  ℕ, zero, suc, ◌<◌, ◌≡◌, Bool-cases, inl, inr, true, false, ◌++◌, ◌∷◌, [], length, length-append,
  ◌==◌, arith,
}
use client_rust.Std.{FloatParse}
use client_rust.Protocol.Outcome.{Decoder, Outcome, done, fail, panic, out_of_fuel, Method, bind}
use client_rust.Protocol.Cursor.{eof, cursor_value}
use client_rust.Protocol.State.{completed, pending}
use client_rust.Protocol.Validate.{DecodeState, validate}
use client_rust.Protocol.Pipe.{
  illegal_packet_escape, MRespState, PipelineResult, take_pending, with_response, pipe_packet,
  pipe_round, pipe_loop, validate_pipe,
}

-- If there are responses, there are as many as were expected, and one at least.
abbrev pub Counted : ℕ → Outcome PipelineResult → Type 0
Counted expected (done (completed r) d) = (length r ≡ expected) × (0 < length r)
Counted expected (done (pending s) d) = Unit
Counted expected (fail e d) = Unit
Counted expected panic = Unit
Counted expected out_of_fuel = Unit

bind-Counted :
    {A : Type 0} (expected : ℕ) (out : Outcome A) (k : A → Method PipelineResult)
    → ((a : A) (d : Decoder) → Counted expected (k a d))
    → Counted expected (bind out k)
bind-Counted expected (done a d) k h = h a d
bind-Counted expected (fail e d) k h = tt
bind-Counted expected panic k h = tt
bind-Counted expected out_of_fuel k h = tt

module _ (fp : FloatParse) (next_rounds : MRespState → Decoder → Outcome PipelineResult)
    (expected : ℕ)
    (rounds : (s : MRespState) (d : Decoder) → Counted expected (next_rounds s d)) where
  with_response-Counted :
      (self : MRespState) (r : DecodeState) (d : Decoder)
      → Counted expected (with_response fp next_rounds expected self r d)
  with_response-Counted self (completed resp) d =
      elim (Bool-cases (length (self.processed ++ resp ∷ []) == expected)) [
        | inl all ↦
            rw (Counted, all)
              (ground arith, omega (arith, length-append self.processed (resp ∷ [])))
        | inr more ↦ rw (Counted, more) (rounds _ d)
      ]
  with_response-Counted self (pending s) d = tt

  pipe_packet-Counted :
      (self : MRespState) (d : Decoder)
      → Counted expected (pipe_packet fp next_rounds expected self d)
  unfolding pipe_packet
  pipe_packet-Counted self d = bind-Counted expected (cursor_value d) _ λ first d₁.
      elim (Bool-cases (first == illegal_packet_escape)) [
        | inl escape ↦ rw (Counted, escape) tt
        | inr other ↦
            rw (Counted, other)
              (bind-Counted expected (validate fp (take_pending self.pending) d₁) _
                (with_response-Counted self))
      ]

  pipe_round-Counted :
      (self : MRespState) (d : Decoder)
      → Counted expected (pipe_round fp next_rounds expected self d)
  unfolding pipe_round
  pipe_round-Counted self d = bind-Counted expected (eof d) _ λ at_end d₁.
      elim at_end
        as (λ x. Counted expected (elim x [
          | false ↦ pipe_packet fp next_rounds expected self d₁
          | true ↦ done (pending self) d₁
        ])) [ true ↦ tt | false ↦ pipe_packet-Counted self d₁ ]

pipe_loop-Counted :
    (fp : FloatParse) (f expected : ℕ) (s : MRespState) (d : Decoder)
    → Counted expected (pipe_loop fp f expected s d)
unfolding pipe_loop
pipe_loop-Counted fp zero expected s d = tt
pipe_loop-Counted fp (suc f) expected s d =
    pipe_round-Counted fp (pipe_loop fp f expected) expected (pipe_loop-Counted fp f expected) s d

pub validate_pipe-Counted :
    (fp : FloatParse) (expected : ℕ) (s : MRespState) (d : Decoder)
    → Counted expected (validate_pipe fp expected s d)
unfolding validate_pipe
validate_pipe-Counted fp expected s d = pipe_loop-Counted fp _ expected s d
