-- ===== src/Protocol/Lfs/Objects.antt =====
-- The implementations of `LfsObject` in src/protocol/mod.rs on a buffer that is extended.
use client_rust.Prelude.{
  ℕ, ◌+◌, ◌-◌, ◌≤◌, ◌<◌, ◌≡◌, refl, Bytes, Option, none, some, ◌++◌, length, drop, take, arith, inl,
  inr, length-append, take-append, if◌then◌else◌,
}
use client_rust.Error.{invalid_server_response_for_data}
use client_rust.Std.{is_utf8}
use client_rust.Protocol.Outcome.{Decoder, done, fail, Method}
use client_rust.Protocol.Cursor.{decoder, slice}
use client_rust.Protocol.Cursor.Laws.{slice_lem}
use client_rust.Protocol.Extend.{extend}
use client_rust.Protocol.Lfs
use client_rust.Protocol.Lfs.{LfsValue, LfsObject, unsigned, parsed, parse_block}
use client_rust.Protocol.Lfs.Resume.{KeepsAt, IsLocal}

-- An unsigned integer needs nothing of its position.
abbrev pub AlwaysReady : LfsValue ℕ (Unit {0}) → ℕ → Type 0
AlwaysReady x i = Unit

pub unsigned-IsLocal : (width : ℕ) → IsLocal (unsigned width) AlwaysReady
unsigned-IsLocal width = record {
  ready_initial = λ d. tt;
  ready_updated = λ x i c r. tt;
  ready_later = λ x i j h r. tt;
  keeps = λ x d more h r. inl (x.v, refl, refl);
}

-- A parsed object has begun at or before its position.
abbrev pub HasBegun : {T : Type 0} → LfsValue T ℕ → ℕ → Type 0
HasBegun x i = x.state ≤ i

-- What `parse_block` makes of the block.
abbrev pub parsed_block : {T : Type 0} → (Bytes → Option T) → Bytes → Option T
parsed_block parse block = if is_utf8 block then parse block else none

module _ {T : Type 0} (parse : Bytes → Option T) where
  pub parse_block_lem :
      (start : ℕ) (d : Decoder) (block : Bytes)
      → slice d.b start (d.i - 1) d ≡ done block d
      → parse_block parse start d ≡ elim (parsed_block parse block) [
        | some v ↦ done v d
        | none ↦ fail invalid_server_response_for_data d
      ]
  unfolding parse_block
  parse_block_lem start d block h = rw h

  keeps_outcome :
      (m : Method T) (d : Decoder) (more : Bytes) (o : Option T)
      → m d ≡ elim o [ some v ↦ done v d | none ↦ fail invalid_server_response_for_data d ]
      → m (extend d more) ≡ elim o [
        | some v ↦ done v (extend d more)
        | none ↦ fail invalid_server_response_for_data (extend d more)
      ]
      → KeepsAt m d more
  keeps_outcome m d more (some v) h k = inl (v, h, k)
  keeps_outcome m d more none h k = inr (invalid_server_response_for_data, h, k)

  parse_block-KeepsAt :
      (start : ℕ) (d : Decoder) (more : Bytes)
      → start ≤ d.i
      → d.i < length d.b
      → KeepsAt (parse_block parse start) (decoder d.b (d.i + 1)) more
  parse_block-KeepsAt start d more r h =
      let d' = decoder d.b (d.i + 1) in
      let block = drop start (take (d.i + 1 - 1) d.b) in
      keeps_outcome (parse_block parse start) d' more (parsed_block parse block)
        (parse_block_lem start d' block
          (slice_lem d.b start (d.i + 1 - 1) d' (omega arith) (omega arith)))
        (parse_block_lem start (extend d' more) block (
          rw (← take-append (d.i + 1 - 1) d.b more (omega arith)) (
            slice_lem (d.b ++ more) start (d.i + 1 - 1) (extend d' more) (omega arith)
              (omega (arith, length-append d.b more)))))

  pub parsed-IsLocal : (default : T) → IsLocal (parsed default parse) HasBegun
  unfolding Lfs.initialize
  parsed-IsLocal default = record {
    ready_initial = λ d. omega arith;
    ready_updated = λ x i c r. omega arith;
    ready_later = λ x i j h r. omega arith;
    keeps = λ x d more h r. parse_block-KeepsAt x.state d more r h;
  }
