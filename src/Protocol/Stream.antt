-- ===== src/Protocol/Stream.antt =====
-- `ValueStream::_complete` with its loop, and the methods of `ValueStream` and `PendingValue` over it.
pub mod Fuel
pub mod Resume
pub mod Total
use client_rust.Prelude.{ℕ, zero, suc, ◌+◌, ◌-◌, true, false, length, ◌==◌}
use client_rust.Std.{FloatParse}
use client_rust.Response.{count, push}
use client_rust.Protocol.Outcome.{Decoder, done, out_of_fuel, Method, bind}
use client_rust.Protocol.Cursor.{eof}
use client_rust.Protocol.State.{ProtocolObjectDecodeState, completed, pending, Complete}
use client_rust.Protocol.Value as Values
use client_rust.Protocol.Value.Depth.{depth_stream}
use client_rust.Protocol.Value.{
  PendingValue, ValueStream, MaybePending, value_stream, absent, present, list, StreamLoop,
  ValueState,
}

module _ (fp : FloatParse) where
  -- `match self.pending.take()`: the pending value goes on, or the next one begins.
  unfoldable pub element : StreamLoop → MaybePending → Method ValueState
  element stream absent = Values.next_value fp stream
  element stream (present v) = Values.try_complete_self fp stream v

  -- What the loop does with the element: go on with `self.items.push(v)`, or store what is pending.
  abbrev pub with_element :
      StreamLoop
      → ValueStream
      → ℕ
      → ValueState
      → Method (ProtocolObjectDecodeState ValueStream ValueStream)
  with_element stream (value_stream n vs p) size (completed v) d =
      stream (value_stream n (push vs v) absent) size d
  with_element stream (value_stream n vs p) size (pending pv) d =
      done (pending (value_stream n vs (present pv))) d

  -- One round of `while self.items.len() != size`, over the rounds that follow.
  unfoldable pub stream_round : StreamLoop → StreamLoop
  stream_round stream (value_stream n vs p) size d = elim (count vs == size) [
    | true ↦ done (completed (value_stream n vs p)) d
    | false ↦ bind (eof d) λ at_end d₁. elim at_end [
      | true ↦ done (pending (value_stream n vs p)) d₁
      | false ↦ bind (element stream p d₁) (with_element stream (value_stream n vs p) size)
    ]
  ]

  unfoldable pub stream_loop : ℕ → StreamLoop
  stream_loop zero vs size d = out_of_fuel
  stream_loop (suc f) vs size d = stream_round (stream_loop f) vs size d

  -- Every byte and every level of a pending value takes one round at most.
  abbrev pub stream_fuel : ValueStream → Decoder → ℕ
  stream_fuel vs d = suc (length d.b - d.i + depth_stream vs)

  -- `ValueStream::_complete`.
  unfoldable pub complete_items : StreamLoop
  complete_items vs size d = stream_loop (stream_fuel vs d) vs size d

  unfoldable pub complete : Complete ValueStream
  complete = Values.complete_stream complete_items

  unfoldable pub try_complete_self : PendingValue → Method ValueState
  try_complete_self = Values.try_complete_self fp complete_items

  unfoldable pub next_value_with_code : ℕ → Method ValueState
  next_value_with_code = Values.next_value_with_code fp complete_items
