-- ===== src/Protocol/Wire/Blocks.antt =====
-- The objects of `SpObject` in src/protocol/mod.rs, read from a size and a block.
use client_rust.Prelude.{
  ◌-◌, ◌≡◌, refl, Bytes, true, [], ◌∷◌, ◌++◌, length, arith, leb, lf, drop-take-prefix,
}
use client_rust.Std.{is_utf8}
use client_rust.Protocol.Outcome.{Decoder, done}
use client_rust.Protocol.Cursor.Laws.{has_left_lem, next_chunk_lem}
use client_rust.Protocol.State.{completed}
use client_rust.Protocol.Sp.{
  SpObjectState, Finish, finish_binary, finish_string, initialize, take_block, complete,
}
use client_rust.Protocol.Wire.{Digits}
use client_rust.Protocol.Wire.At.{At, past, At-front, At-past, At-room, past-past}
use client_rust.Protocol.Wire.Lines.{complete_size-Digits}

-- `finish` takes the block as it is.
abbrev pub Accepts : Finish → Bytes → Type 0
Accepts finish v = (d : Decoder) → finish v d ≡ done v d

pub finish_binary-Accepts : (v : Bytes) → Accepts finish_binary v
unfolding finish_binary
finish_binary-Accepts v d = refl

pub finish_string-Accepts : (v : Bytes) → is_utf8 v ≡ true → Accepts finish_string v
unfolding finish_string
finish_string-Accepts v h d = rw h

module _ (finish : Finish) (v : Bytes) (accepts : Accepts finish v) where
  take_block-At :
      (self : SpObjectState) (d : Decoder) (rest : Bytes)
      → At d v rest
      → take_block finish (length v) self d ≡ done (completed (record self { v = v })) (past d v)
  unfolding take_block
  take_block-At self d rest (valid, e) =
      let room = At-room d v rest (valid, e) in
      let enough : leb (length v) (length d.b - d.i) ≡ true = ground arith in
      rw
        (
          has_left_lem (length v) d valid.1,
          enough,
          next_chunk_lem (length v) d room,
          drop-take-prefix d.i d.b v rest e,
        )
        (rw (accepts (past d v)))

  pub complete-block :
      (s : Bytes) (d : Decoder) (rest : Bytes)
      → Digits 64 s (length v)
      → At d ((s ++ lf ∷ []) ++ v) rest
      → complete finish (initialize d) d
        ≡ done
            (completed (record { size = completed (length v); v = v }))
            (past d ((s ++ lf ∷ []) ++ v))
  unfolding complete initialize
  complete-block s d rest digits at =
      rw
        (complete_size-Digits (length v) s d (v ++ rest) digits
          (At-front d (s ++ lf ∷ []) v rest at))
        (rw (
          take_block-At _ (past d (s ++ lf ∷ [])) rest (At-past d (s ++ lf ∷ []) v rest at),
          past-past d (s ++ lf ∷ []) v,
        ))
