-- ===== src/Protocol/Validate.antt =====
-- `Decoder::validate_response`: the state machine that decodes one response.
pub mod Resume
pub mod Pieces
use client_rust.Prelude.{ℕ, ◌+◌, ◌*◌, map, ltb, ◌==◌, if◌then◌else◌}
use client_rust.Std.{FloatParse}
use client_rust.Error.{invalid_server_response_unknown_data_type}
use client_rust.Response.{Response, empty, value, row, rows, error}
use client_rust.Protocol.Outcome.{done, fail, Method, bind}
use client_rust.Protocol.Cursor.{next, remaining}
use client_rust.Protocol.State.{ProtocolObjectDecodeState, completed, pending}
use client_rust.Protocol.Value.{PendingValue, ValueStream, ValueState, items, initialize_stream}
use client_rust.Protocol.Stream
use client_rust.Protocol.Multi
use client_rust.Protocol.Multi.{MultiValueStream}

-- `enum ResponseState`; an `RState` is one.
pub data ResponseState : Type 0 where
  initial : ResponseState
  p_value : PendingValue → ResponseState
  p_error : ResponseState
  p_row : ValueStream → ResponseState
  p_multi_row : MultiValueStream → ResponseState

-- `DecodeState` without its variant `Error`, which is the failure of the method.
abbrev pub DecodeState : Type 0
DecodeState = ProtocolObjectDecodeState Response ResponseState

-- `u16::from_le_bytes`.
abbrev pub from_le_bytes : ℕ → ℕ → ℕ
from_le_bytes lo hi = lo + 256 * hi

unfoldable pub complete_error : Method DecodeState
complete_error d = bind (remaining d) λ n d₁.
    if ltb n 2
    then done (pending p_error) d₁
    else bind (next d₁)
        (λ lo d₂. bind (next d₂) λ hi d₃. done (completed (error (from_le_bytes lo hi))) d₃)

abbrev pub value_response : ValueState → DecodeState
value_response (completed c) = completed (value c)
value_response (pending pv) = pending (p_value pv)

abbrev pub row_response : ProtocolObjectDecodeState ValueStream ValueStream → DecodeState
row_response (completed vs) = completed (row (record { values = items vs }))
row_response (pending vs) = pending (p_row vs)

-- The transmute: a `Row` is laid out as its vector of values.
abbrev pub rows_response : Multi.MultiState → DecodeState
rows_response (completed c) = completed (rows (map (λ vs. record { values = vs }) c.items))
rows_response (pending pmv) = pending (p_multi_row pmv)

module _ (fp : FloatParse) where
  unfoldable pub complete_row : ValueStream → Method DecodeState
  complete_row vs d = bind (Stream.complete fp vs d) λ r d₁. done (row_response r) d₁

  unfoldable pub complete_rows : MultiValueStream → Method DecodeState
  complete_rows mvs d = bind (Multi.complete fp mvs d) λ r d₁. done (rows_response r) d₁

  -- The dispatch on the first byte of a response.
  unfoldable pub begin_response : ℕ → Method DecodeState
  begin_response code d =
      if code == 0x0F
      then fail invalid_server_response_unknown_data_type d
      else if code == 0x10
      then complete_error d
      else if code == 0x11
      then complete_row (initialize_stream d) d
      else if code == 0x12
      then done (completed empty) d
      else if code == 0x13
      then complete_rows (Multi.initialize d) d
      else bind (Stream.next_value_with_code fp code d) (λ r d₁. done (value_response r) d₁)

  unfoldable pub validate : ResponseState → Method DecodeState
  validate initial d = bind (next d) begin_response
  validate (p_value pv) d =
      bind (Stream.try_complete_self fp pv d) λ r d₁. done (value_response r) d₁
  validate p_error d = complete_error d
  validate (p_row vs) d = complete_row vs d
  validate (p_multi_row mvs) d = complete_rows mvs d
