-- ===== src/Protocol/Multi.antt =====
-- `MultiValueStream`: a sequence of value streams of one size.
pub mod Loop
pub mod Resume
use client_rust.Prelude.{
  ℕ, zero, suc, ◌-◌, true, false, Option, none, some, List, [], ◌∷◌, ◌++◌, length, ◌==◌,
}
use client_rust.Std.{FloatParse}
use client_rust.Response.{Values}
use client_rust.Protocol.Outcome.{Decoder, done, out_of_fuel, Method, bind}
use client_rust.Protocol.State.{ProtocolObjectDecodeState, completed, pending, Complete}
use client_rust.Protocol.Sp.{SizeState, pending_size, complete_size}
use client_rust.Protocol.Value.{ValueStream, items, initialize_stream}
use client_rust.Protocol.Stream

-- `struct MultiValueStream`.
pub record MultiValueStream : Type 0 where
  pub stream_count : SizeState
  pub stream_size : SizeState
  pub items : List Values
  pub pending : Option ValueStream

-- The result of `MultiValueStream::complete`.
abbrev pub MultiState : Type 0
MultiState = ProtocolObjectDecodeState MultiValueStream MultiValueStream

unfoldable pub initialize : Decoder → MultiValueStream
initialize d = record {
  stream_count = pending_size d;
  stream_size = pending_size d;
  items = [];
  pending = none;
}

-- The stream of this round: the pending one, or a new one.
abbrev pub current_stream : Option ValueStream → Decoder → ValueStream
current_stream none d = initialize_stream d
current_stream (some pvs) d = pvs

-- What a round does with its stream: go on with `self.items.push(vs.items)`, or store what is pending.
abbrev pub with_stream :
    (MultiValueStream → Method MultiState)
    → MultiValueStream
    → ProtocolObjectDecodeState ValueStream ValueStream
    → Method MultiState
with_stream next_rounds self (completed vs) d =
    next_rounds (record self { items = self.items ++ items vs ∷ []; pending = none }) d
with_stream next_rounds self (pending pvs) d = done (pending (record self { pending = some pvs })) d

module _ (fp : FloatParse) where
  -- One round of `while self.items.len() != stream_count`, over the rounds that follow.
  unfoldable pub multi_round :
      (MultiValueStream → Method MultiState) → ℕ → ℕ → MultiValueStream → Method MultiState
  multi_round next_rounds stream_count stream_size self d =
      elim (length self.items == stream_count) [
        | true ↦ done (completed self) d
        | false ↦
            bind (Stream.complete_items fp (current_stream self.pending d) stream_size d)
              (with_stream next_rounds self)
      ]

  -- A round completes a stream or returns: the fuel is the number of streams that are left.
  unfoldable pub multi_loop : ℕ → ℕ → ℕ → MultiValueStream → Method MultiState
  multi_loop zero stream_count stream_size self d = out_of_fuel
  multi_loop (suc f) stream_count stream_size self d =
      multi_round (multi_loop f stream_count stream_size) stream_count stream_size self d

  abbrev pub with_stream_size : MultiValueStream → ℕ → SizeState → Method MultiState
  with_stream_size self c (completed size) d =
      multi_loop (suc (c - length self.items)) c size
        (record self { stream_count = completed c; stream_size = completed size }) d
  with_stream_size self c (pending pv) d =
      done (pending (record self { stream_count = completed c; stream_size = pending pv })) d

  abbrev pub with_stream_count : MultiValueStream → SizeState → Method MultiState
  with_stream_count self (completed c) d =
      bind (complete_size self.stream_size d) (with_stream_size self c)
  with_stream_count self (pending pv) d =
      done (pending (record self { stream_count = pending pv })) d

  unfoldable pub complete : Complete MultiValueStream
  complete self d = bind (complete_size self.stream_count d) (with_stream_count self)
