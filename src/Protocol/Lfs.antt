-- ===== src/Protocol/Lfs.antt =====
-- Objects that end with a line feed: `LfsValue` and the implementations of the trait `LfsObject`.
pub mod Objects
pub mod Scan
pub mod Resume
pub mod Numbers
use client_rust.Prelude.{
  ℕ, zero, suc, ◌+◌, ◌-◌, ◌*◌, ◌^◌, ◌%◌, Bytes, Bool, true, false, not, ◌&&◌, Option, none, some,
  length, ltb, if◌then◌else◌, lf,
}
use client_rust.Error.{invalid_server_response_for_data}
use client_rust.Std.{ℤ, pos, is_ascii_digit, is_utf8, parse_signed, FloatParse}
use client_rust.Protocol.Outcome.{Decoder, done, fail, out_of_fuel, Method, bind, ◌>>=◌, pure}
use client_rust.Protocol.Cursor.{advance, slice, next, eof, cursor_eq}
use client_rust.Protocol.State.{ProtocolObjectDecodeState, completed, pending}

-- `trait LfsObject`. `update` returns the new object and state, and false for a byte that is refused.
pub record LfsObject (T S : Type 0) : Type 0 where
  pub init_state : Decoder → T × S
  pub update : T → S → ℕ → T × S × Bool
  pub complete_lfs : T → S → Method T

-- `struct LfsValue`.
pub record LfsValue (T S : Type 0) : Type 0 where
  pub v : T
  pub state : S

-- The loop's variables: the object, `error` and `stop`.
pub record LfsLoop (T S : Type 0) : Type 0 where
  pub obj : LfsValue T S
  pub error : Bool
  pub stop : Bool

module _ {T S : Type 0} (o : LfsObject T S) where
  unfoldable pub initialize : Decoder → LfsValue T S
  initialize d = let (v₀, s₀) = o.init_state d in record { v = v₀; state = s₀ }

  -- `self.v.update(&mut self.state, byte)`.
  abbrev pub updated : LfsValue T S → ℕ → LfsValue T S × Bool
  updated x byte =
      let (v₁, s₁, accepted) = o.update x.v x.state byte in
      (record { v = v₁; state = s₁ }, accepted)

  -- The body of the loop.
  unfoldable pub lfs_step : LfsLoop T S → Method (LfsLoop T S)
  lfs_step l = do
    byte ← next
    let (x, accepted) = updated l.obj byte
    stop' ← cursor_eq lf
    pure (record { obj = x; error = not accepted; stop = stop' })

  -- `while (!decoder.eof()) && (!error) && (!stop)`.
  unfoldable pub lfs_loop : ℕ → LfsLoop T S → Method (LfsLoop T S)
  lfs_loop zero l d = out_of_fuel
  lfs_loop (suc f) l d = bind (eof d) λ at_end d₁. elim (not at_end && not l.error && not l.stop) [
    | true ↦ bind (lfs_step l d₁) (lfs_loop f)
    | false ↦ done l d₁
  ]

  -- What follows the loop.
  unfoldable pub lfs_finish :
      LfsLoop T S → Method (ProtocolObjectDecodeState (LfsValue T S) (LfsValue T S))
  lfs_finish l d =
      if l.stop && not l.error
      then bind (advance 1 d) (λ _ d₁.
        bind (o.complete_lfs l.obj.v l.obj.state d₁)
          λ v₁ d₂. done (completed (record { v = v₁; state = l.obj.state })) d₂)
      else if l.error
      then fail invalid_server_response_for_data d
      else done (pending l.obj) d

  unfoldable pub complete :
      LfsValue T S → Method (ProtocolObjectDecodeState (LfsValue T S) (LfsValue T S))
  complete x d = bind (cursor_eq lf d) λ stop₀ d₁.
      bind
        (lfs_loop (suc (length d₁.b - d₁.i)) (record { obj = x; error = false; stop = stop₀ }) d₁)
        lfs_finish

-- `impl_num_lfs_object!`: unsigned integers of `width` bits. The low nibble of the byte is added by
-- checked arithmetic before the byte is tested.
unfoldable pub checked_push : ℕ → ℕ → ℕ → Option ℕ
checked_push width n byte =
    if ltb (n * 10) (2 ^ width)
    then if ltb (n * 10 + byte % 16) (2 ^ width) then some (n * 10 + byte % 16) else none
    else none

unfoldable pub unsigned_update : ℕ → ℕ → Unit {0} → ℕ → ℕ × Unit {0} × Bool
unsigned_update width n s byte = elim (checked_push width n byte) [
  | none ↦ (n, s, false)
  | some v ↦ if is_ascii_digit byte then (v, s, true) else (n, s, false)
]

abbrev pub unsigned : ℕ → LfsObject ℕ (Unit {0})
unsigned width = record {
  init_state = λ _. (0, tt);
  update = unsigned_update width;
  complete_lfs = λ v _. pure v;
}

-- `impl_num_lfs_object_state!`: `LfsObjectState { start }` is the number `start`. The bytes are taken
-- without a test, and the block before the line feed is parsed by the standard library.
unfoldable pub parse_block : {T : Type 0} → (Bytes → Option T) → ℕ → Method T
parse_block parse start d = bind (slice d.b start (d.i - 1) d) λ block d₁.
    elim (if is_utf8 block then parse block else none) [
      | some v ↦ done v d₁
      | none ↦ fail invalid_server_response_for_data d₁
    ]

abbrev pub parsed : {T : Type 0} → T → (Bytes → Option T) → LfsObject T ℕ
parsed default parse = record {
  init_state = λ d. (default, d.i);
  update = λ v s _. (v, s, true);
  complete_lfs = λ _ start. parse_block parse start;
}

abbrev pub signed : ℕ → LfsObject ℤ ℕ
signed width = parsed (pos 0) (parse_signed width)

abbrev pub float32_object : FloatParse → LfsObject ℕ ℕ
float32_object fp = parsed 0 fp.parse_f32

abbrev pub float64_object : FloatParse → LfsObject ℕ ℕ
float64_object fp = parsed 0 fp.parse_f64

-- `usize` is 64 bits wide.
abbrev pub usize_object : LfsObject ℕ (Unit {0})
usize_object = unsigned 64
