-- ===== src/Protocol/Value.antt =====
-- `PendingValue` and `ValueStream`: a value that is only partly received, and a list of values.
-- The two recur on one another, through the loop of `ValueStream::_complete`: what follows takes that
-- loop as the argument `stream`, and `Stream` ties the knot.
pub mod Ready
pub mod Depth
pub mod Dispatch
pub mod Resume
use client_rust.Prelude.{ℕ, Bool, false, ltb, ◌==◌, if◌then◌else◌}
use client_rust.Error.{invalid_server_response_for_data, invalid_server_response_unknown_data_type}
use client_rust.Std.{ℤ, FloatParse}
use client_rust.Response.{Value, Values, nil}
use client_rust.Protocol.Outcome.{Decoder, done, fail, Method, bind}
use client_rust.Protocol.Cursor.{next, eof}
use client_rust.Protocol.State.{ProtocolObjectDecodeState, completed, pending, Complete, convert}
use client_rust.Protocol.Lfs
use client_rust.Protocol.Lfs.{LfsValue, LfsObject, unsigned, signed, float32_object, float64_object}
use client_rust.Protocol.Sp
use client_rust.Protocol.Sp.{
  SpObjectState, SizeState, pending_size, complete_size, finish_binary, finish_string,
}

-- `enum PendingValue`, `struct ValueStream` and the `Option<Box<PendingValue>>` inside it.
mutual
  pub data PendingValue : Type 0 where
    bool : Bool → PendingValue
    uint8 : LfsValue ℕ (Unit {0}) → PendingValue
    uint16 : LfsValue ℕ (Unit {0}) → PendingValue
    uint32 : LfsValue ℕ (Unit {0}) → PendingValue
    uint64 : LfsValue ℕ (Unit {0}) → PendingValue
    sint8 : LfsValue ℤ ℕ → PendingValue
    sint16 : LfsValue ℤ ℕ → PendingValue
    sint32 : LfsValue ℤ ℕ → PendingValue
    sint64 : LfsValue ℤ ℕ → PendingValue
    float32 : LfsValue ℕ ℕ → PendingValue
    float64 : LfsValue ℕ ℕ → PendingValue
    binary : SpObjectState → PendingValue
    string : SpObjectState → PendingValue
    list : ValueStream → PendingValue

  -- The fields `element_count`, `items` and `pending`.
  pub data ValueStream : Type 0 where
    value_stream : SizeState → Values → MaybePending → ValueStream

  pub data MaybePending : Type 0 where
    absent : MaybePending
    present : PendingValue → MaybePending

abbrev pub items : ValueStream → Values
items (value_stream n vs p) = vs

abbrev pub pending_of : ValueStream → MaybePending
pending_of (value_stream n vs p) = p

-- The result of the methods below: `ProtocolObjectDecodeState<Value, PendingValue>`.
abbrev pub ValueState : Type 0
ValueState = ProtocolObjectDecodeState Value PendingValue

-- `ValueStream::_complete`.
abbrev pub StreamLoop : Type 0
StreamLoop = ValueStream → ℕ → Method (ProtocolObjectDecodeState ValueStream ValueStream)

-- `PendingValue::complete_value`; `into` and `back` are the two `From` implementations.
unfoldable pub complete_value :
    {S : Type 0} → Complete S → (S → Value) → (S → PendingValue) → S → Method ValueState
complete_value complete into back current d =
    bind (complete current d) λ r d₁. done (convert into back r) d₁

-- `PendingValue::try_value`.
abbrev pub try_value :
    {S : Type 0} → Complete S → (Decoder → S) → (S → Value) → (S → PendingValue) → Method ValueState
try_value complete initialize into back d = complete_value complete into back (initialize d) d

unfoldable pub decode_bool : Method ValueState
decode_bool d = bind (eof d) λ at_end d₁.
    if at_end
    then done (pending (PendingValue.bool false)) d₁
    else bind (next d₁) (λ v d₂.
      if ltb 1 v
      then fail invalid_server_response_for_data d₂
      else done (completed (Value.bool (v == 1))) d₂)

unfoldable pub initialize_stream : Decoder → ValueStream
initialize_stream d = value_stream (pending_size d) nil absent

module _ (stream : StreamLoop) where
  abbrev pub with_count :
      ValueStream → SizeState → Method (ProtocolObjectDecodeState ValueStream ValueStream)
  with_count (value_stream n vs p) (completed c) d = stream (value_stream (completed c) vs p) c d
  with_count (value_stream n vs p) (pending pv) d =
      done (pending (value_stream (pending pv) vs p)) d

  -- `ValueStream::complete`.
  unfoldable pub complete_stream : Complete ValueStream
  complete_stream (value_stream n vs p) d =
      bind (complete_size n d) (with_count (value_stream n vs p))

module _ (fp : FloatParse) (stream : StreamLoop) where
  -- `PendingValue::try_complete_self`.
  unfoldable pub try_complete_self : PendingValue → Method ValueState
  try_complete_self (bool b) = decode_bool
  try_complete_self (uint8 pv) =
      complete_value (Lfs.complete (unsigned 8)) (λ x. Value.uint8 x.v) uint8 pv
  try_complete_self (uint16 pv) =
      complete_value (Lfs.complete (unsigned 16)) (λ x. Value.uint16 x.v) uint16 pv
  try_complete_self (uint32 pv) =
      complete_value (Lfs.complete (unsigned 32)) (λ x. Value.uint32 x.v) uint32 pv
  try_complete_self (uint64 pv) =
      complete_value (Lfs.complete (unsigned 64)) (λ x. Value.uint64 x.v) uint64 pv
  try_complete_self (sint8 pv) =
      complete_value (Lfs.complete (signed 8)) (λ x. Value.sint8 x.v) sint8 pv
  try_complete_self (sint16 pv) =
      complete_value (Lfs.complete (signed 16)) (λ x. Value.sint16 x.v) sint16 pv
  try_complete_self (sint32 pv) =
      complete_value (Lfs.complete (signed 32)) (λ x. Value.sint32 x.v) sint32 pv
  try_complete_self (sint64 pv) =
      complete_value (Lfs.complete (signed 64)) (λ x. Value.sint64 x.v) sint64 pv
  try_complete_self (float32 pv) =
      complete_value (Lfs.complete (float32_object fp)) (λ x. Value.float32 x.v) float32 pv
  try_complete_self (float64 pv) =
      complete_value (Lfs.complete (float64_object fp)) (λ x. Value.float64 x.v) float64 pv
  try_complete_self (binary pv) =
      complete_value (Sp.complete finish_binary) (λ x. Value.binary x.v) binary pv
  try_complete_self (string pv) =
      complete_value (Sp.complete finish_string) (λ x. Value.string x.v) string pv
  try_complete_self (list pv) =
      complete_value (complete_stream stream) (λ x. Value.list (items x)) list pv

  -- `PendingValue::next_value_with_code`.
  unfoldable pub next_value_with_code : ℕ → Method ValueState
  next_value_with_code code =
      if code == 0x00
      then (λ d. done (completed Value.null) d)
      else if code == 0x01
      then decode_bool
      else if code == 0x02
      then try_value (Lfs.complete (unsigned 8)) (Lfs.initialize (unsigned 8))
          (λ x. Value.uint8 x.v) uint8
      else if code == 0x03
      then try_value (Lfs.complete (unsigned 16)) (Lfs.initialize (unsigned 16))
          (λ x. Value.uint16 x.v) uint16
      else if code == 0x04
      then try_value (Lfs.complete (unsigned 32)) (Lfs.initialize (unsigned 32))
          (λ x. Value.uint32 x.v) uint32
      else if code == 0x05
      then try_value (Lfs.complete (unsigned 64)) (Lfs.initialize (unsigned 64))
          (λ x. Value.uint64 x.v) uint64
      else if code == 0x06
      then try_value (Lfs.complete (signed 8)) (Lfs.initialize (signed 8)) (λ x. Value.sint8 x.v)
          sint8
      else if code == 0x07
      then try_value (Lfs.complete (signed 16)) (Lfs.initialize (signed 16)) (λ x. Value.sint16 x.v)
          sint16
      else if code == 0x08
      then try_value (Lfs.complete (signed 32)) (Lfs.initialize (signed 32)) (λ x. Value.sint32 x.v)
          sint32
      else if code == 0x09
      then try_value (Lfs.complete (signed 64)) (Lfs.initialize (signed 64)) (λ x. Value.sint64 x.v)
          sint64
      else if code == 0x0A
      then try_value (Lfs.complete (float32_object fp)) (Lfs.initialize (float32_object fp))
          (λ x. Value.float32 x.v) float32
      else if code == 0x0B
      then try_value (Lfs.complete (float64_object fp)) (Lfs.initialize (float64_object fp))
          (λ x. Value.float64 x.v) float64
      else if code == 0x0C
      then try_value (Sp.complete finish_binary) Sp.initialize (λ x. Value.binary x.v) binary
      else if code == 0x0D
      then try_value (Sp.complete finish_string) Sp.initialize (λ x. Value.string x.v) string
      else if code == 0x0E
      then try_value (complete_stream stream) initialize_stream (λ x. Value.list (items x)) list
      else (λ d. fail invalid_server_response_unknown_data_type d)

  -- `PendingValue::next_value`.
  unfoldable pub next_value : Method ValueState
  next_value d = bind (next d) next_value_with_code
