-- ===== src/Protocol/Wire/Items.antt =====
-- The loops of src/protocol/mod.rs on the bytes of values and of rows: `ValueStream::_complete` and
-- `MultiValueStream::complete`.
use client_rust.Prelude.{
  ℕ, zero, suc, ◌+◌, ◌<◌, ◌≡◌, refl, ap, true, false, List, Bytes, [], ◌∷◌, ◌++◌, length, arith,
  ◌==◌, length-append, none, map, append_assoc, append-nil,
}
use client_rust.Std.{FloatParse}
use client_rust.Response.{Value, Values, nil, cons, count, push, Row}
use client_rust.Protocol.Outcome.{Decoder, done}
use client_rust.Protocol.State.{completed}
use client_rust.Protocol.Sp.{pending_size}
use client_rust.Protocol.Value.{absent, initialize_stream}
use client_rust.Protocol.Value.Resume.{left}
use client_rust.Protocol.Stream.{element, stream_loop, complete_items}
use client_rust.Protocol.Stream.Resume.{round_full, round_next}
use client_rust.Protocol.Multi.{multi_loop}
use client_rust.Protocol.Multi.Loop as Loop
use client_rust.Protocol.Multi.Loop.{sized, length_push}
use client_rust.Protocol.Wire.{
  WireValue, WireValues, WireRows, null, bool, uint8, uint16, uint32, uint64, sint8, sint16, sint32,
  sint64, float32, float64, binary, string, list,
}
use client_rust.Protocol.Wire.At.{At, past, At-front, At-past, At-room, past-past, past_nil}
use client_rust.Protocol.Wire.Codes.{Reads, push_all-nil, count-push, next_value-WireValue}

module _ (fp : FloatParse) where
  -- The bytes of a value begin with one of its codes.
  pub code-WireValue :
      {v : Value} {s : Bytes} → WireValue fp v s → (c : ℕ) × (t : Bytes) × (s ≡ c ∷ t) × (c < 0x0F)
  code-WireValue null = (0x00, _, refl, omega arith)
  code-WireValue (bool b) = (0x01, _, refl, omega arith)
  code-WireValue (uint8 n s h) = (0x02, _, refl, omega arith)
  code-WireValue (uint16 n s h) = (0x03, _, refl, omega arith)
  code-WireValue (uint32 n s h) = (0x04, _, refl, omega arith)
  code-WireValue (uint64 n s h) = (0x05, _, refl, omega arith)
  code-WireValue (sint8 z s h) = (0x06, _, refl, omega arith)
  code-WireValue (sint16 z s h) = (0x07, _, refl, omega arith)
  code-WireValue (sint32 z s h) = (0x08, _, refl, omega arith)
  code-WireValue (sint64 z s h) = (0x09, _, refl, omega arith)
  code-WireValue (float32 x s h) = (0x0A, _, refl, omega arith)
  code-WireValue (float64 x s h) = (0x0B, _, refl, omega arith)
  code-WireValue (binary v s h) = (0x0C, _, refl, omega arith)
  code-WireValue (string v s h valid) = (0x0D, _, refl, omega arith)
  code-WireValue (list s h wire) = (0x0E, _, refl, omega arith)

  length-WireValue : {v : Value} {s : Bytes} → WireValue fp v s → 0 < length s
  length-WireValue w = let (c, t, e, small) = code-WireValue w in omega (arith, ap length e)

  pub stream_loop-Reads : (f : ℕ) → Reads fp (stream_loop fp f) f
  unfolding stream_loop element
  stream_loop-Reads zero n ws vs t size d rest wire at all less = absurd (omega arith)
  stream_loop-Reads (suc f) n ws nil t size d rest WireValues.nil at all less =
      let full : (count ws == size) ≡ true = ground arith in
      rw (round_full fp (stream_loop fp f) n ws absent size d full, past_nil d)
  stream_loop-Reads (suc f) n ws (cons v vs) _ size d rest (WireValues.cons {s} {t} w wire) at all
        less =
      let room = At-room d (s ++ t) rest at in
      let some_bytes = length-WireValue w in
      let both = length-append s t in
      let missing : (count ws == size) ≡ false = ground arith in
      rw
        (
          round_next fp (stream_loop fp f) n ws absent size d missing (omega arith),
          next_value-WireValue fp (stream_loop fp f) f (stream_loop-Reads f) w d (t ++ rest)
              (At-front d s t rest at) (omega arith),
        )
        (rw (
          stream_loop-Reads f n (push ws v) vs t size (past d s) rest wire (At-past d s t rest at)
              (omega (arith, count-push ws v)) (omega arith),
          past-past d s t,
        ))

  pub complete_items-Reads : (f : ℕ) → Reads fp (complete_items fp) f
  unfolding complete_items
  complete_items-Reads f n ws vs t size d rest wire at all less =
      stream_loop-Reads (suc (left d + 0)) n ws vs t size d rest wire at all (omega arith)

  module _ (c size : ℕ) where
    pub multi_loop-WireRows :
        (f : ℕ) (vss : List Values) {rs : List Row} {t : Bytes}
        → WireRows fp size rs t
        → (d : Decoder) (rest : Bytes) → At d t rest
        → length vss + length rs ≡ c
        → length rs < f
        → multi_loop fp f c size (sized c size vss none) d
          ≡ done (completed (sized c size (vss ++ map (λ r. r.values) rs) none)) (past d t)
    unfolding initialize_stream
    multi_loop-WireRows zero vss wire d rest at all enough = absurd (omega arith)
    multi_loop-WireRows (suc f) vss WireRows.nil d rest at all enough =
        let full : (length vss == c) ≡ true = ground arith in
        rw (Loop.round_full fp c size f vss none d full, append-nil vss, past_nil d)
    multi_loop-WireRows (suc f) vss (WireRows.cons {vs} {rs} {s} {t} row_size w wire) d rest at all
          enough =
        let missing : (length vss == c) ≡ false = ground arith in
        rw
          (
            Loop.round_next fp c size f vss none d missing,
            complete_items-Reads (suc (left d)) (pending_size d) nil vs s size d (t ++ rest) w
                (At-front d s t rest at) (omega (arith, row_size)) (omega arith),
            push_all-nil vs,
          )
          (rw (
            multi_loop-WireRows f (vss ++ vs ∷ []) wire (past d s) rest (At-past d s t rest at)
                (omega (arith, length_push vss vs)) (omega arith),
            past-past d s t,
            append_assoc vss (vs ∷ []) (map (λ r. r.values) rs),
          ))
