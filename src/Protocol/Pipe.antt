-- ===== src/Protocol/Pipe.antt =====
-- src/protocol/pipe.rs: the responses to the queries of a pipeline, decoded one after another.
pub mod Count
pub mod Rounds
pub mod Resume
use client_rust.Prelude.{
  ℕ, zero, suc, ◌-◌, true, false, Option, none, some, List, [], ◌∷◌, ◌++◌, length, ◌==◌,
}
use client_rust.Std.{FloatParse}
use client_rust.Error.{invalid_packet}
use client_rust.Response.{Response}
use client_rust.Protocol.Outcome.{Decoder, Outcome, done, fail, out_of_fuel, bind}
use client_rust.Protocol.Cursor.{decoder, eof, cursor_value}
use client_rust.Protocol.State.{ProtocolObjectDecodeState, completed, pending}
use client_rust.Protocol.Validate.{ResponseState, initial, DecodeState, validate}

abbrev pub illegal_packet_escape : ℕ
illegal_packet_escape = 0xFF

-- `struct MRespState`.
pub record MRespState : Type 0 where
  pub processed : List Response
  pub pending : Option ResponseState

-- `MRespState::default()`.
abbrev pub default : MRespState
default = record { processed = []; pending = none }

-- `enum PipelineResult` without its variant `Error`, which is the failure of the method.
abbrev pub PipelineResult : Type 0
PipelineResult = ProtocolObjectDecodeState (List Response) MRespState

-- `self.pending.take().unwrap_or(ResponseState::Initial)`.
abbrev pub take_pending : Option ResponseState → ResponseState
take_pending none = initial
take_pending (some s) = s

module _ (fp : FloatParse) where
  -- What a round does with the outcome of `validate_response`, over the rounds that follow. The new
  -- decoder, `Decoder::new(buf, _position)`, is the one that the method left.
  abbrev pub with_response :
      (MRespState → Decoder → Outcome PipelineResult)
      → ℕ
      → MRespState
      → DecodeState
      → Decoder
      → Outcome PipelineResult
  with_response next_rounds expected self (completed resp) d =
      elim (length (self.processed ++ resp ∷ []) == expected) [
        | true ↦ done (completed (self.processed ++ resp ∷ [])) d
        | false ↦ next_rounds (record { processed = self.processed ++ resp ∷ []; pending = none }) d
      ]
  with_response next_rounds expected self (pending s) d =
      done (pending (record self { pending = some s })) d

  -- A round behind the test for the end of the buffer: `except` reports position 0.
  unfoldable pub pipe_packet :
      (MRespState → Decoder → Outcome PipelineResult)
      → ℕ
      → MRespState
      → Decoder
      → Outcome PipelineResult
  pipe_packet next_rounds expected self d = bind (cursor_value d) λ first d₁.
      elim (first == illegal_packet_escape) [
        | true ↦ fail invalid_packet (decoder d₁.b 0)
        | false ↦
            bind (validate fp (take_pending self.pending) d₁)
              (with_response next_rounds expected self)
      ]

  unfoldable pub pipe_round :
      (MRespState → Decoder → Outcome PipelineResult)
      → ℕ
      → MRespState
      → Decoder
      → Outcome PipelineResult
  pipe_round next_rounds expected self d = bind (eof d) λ at_end d₁. elim at_end [
    | true ↦ done (pending self) d₁
    | false ↦ pipe_packet next_rounds expected self d₁
  ]

  unfoldable pub pipe_loop : ℕ → ℕ → MRespState → Decoder → Outcome PipelineResult
  pipe_loop zero expected self d = out_of_fuel
  pipe_loop (suc f) expected self d = pipe_round (pipe_loop f expected) expected self d

  -- `Decoder::validate_pipe`. A round reads a byte at least, but for a first one that completes a
  -- pending response.
  unfoldable pub validate_pipe : ℕ → MRespState → Decoder → Outcome PipelineResult
  validate_pipe expected state d = pipe_loop (suc (suc (length d.b - d.i))) expected state d
