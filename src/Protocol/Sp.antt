-- ===== src/Protocol/Sp.antt =====
-- Size-prefixed objects: `SpObjectState` and the implementations of the trait `SpObject`.
pub mod Resume
use client_rust.Prelude.{ℕ, Bytes, [], if◌then◌else◌}
use client_rust.Error.{invalid_server_response_for_data}
use client_rust.Std.{is_utf8}
use client_rust.Protocol.Outcome.{Decoder, done, fail, Method, bind}
use client_rust.Protocol.Cursor.{has_left, next_chunk}
use client_rust.Protocol.State.{
  ProtocolObjectDecodeState, completed, pending, Complete, try_complete,
}
use client_rust.Protocol.Lfs
use client_rust.Protocol.Lfs.{LfsValue, usize_object}

-- A size that is being read: the state of a count or a length on the wire.
abbrev pub SizeState : Type 0
SizeState = ProtocolObjectDecodeState ℕ (LfsValue ℕ (Unit {0}))

abbrev pub pending_size : Decoder → SizeState
pending_size d = pending (Lfs.initialize usize_object d)

unfoldable pub complete_size : SizeState → Method SizeState
complete_size size = try_complete (Lfs.complete usize_object) (λ x. x.v) size

-- `struct SpObjectState`. Both objects, `Vec<u8>` and `String`, are bytes.
pub record SpObjectState : Type 0 where
  pub size : SizeState
  pub v : Bytes

-- `SpObject::finish`.
abbrev pub Finish : Type 0
Finish = Bytes → Method Bytes

unfoldable pub finish_binary : Finish
finish_binary block d = done block d

unfoldable pub finish_string : Finish
finish_string block d =
    if is_utf8 block then done block d else fail invalid_server_response_for_data d

unfoldable pub initialize : Decoder → SpObjectState
initialize d = record { size = pending_size d; v = [] }

module _ (finish : Finish) where
  -- The part of `complete` that follows the size.
  unfoldable pub take_block :
      ℕ → SpObjectState → Method (ProtocolObjectDecodeState SpObjectState SpObjectState)
  take_block size self d = bind (has_left size d) λ enough d₁.
      if enough
      then bind (next_chunk size d₁)
          (λ block d₂. bind (finish block d₂) λ v' d₃. done (completed (record self { v = v' })) d₃)
      else done (pending self) d₁

  abbrev pub with_size :
      SpObjectState → SizeState → Method (ProtocolObjectDecodeState SpObjectState SpObjectState)
  with_size self (completed c) d = take_block c (record self { size = completed c }) d
  with_size self (pending pv) d = done (pending (record self { size = pending pv })) d

  unfoldable pub complete : Complete SpObjectState
  complete self d = bind (complete_size self.size d) (with_size self)
