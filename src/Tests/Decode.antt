-- ===== src/Tests/Decode.antt =====
-- The unit tests of src/protocol/mod.rs and src/protocol/pipe.rs as runs of the model.
use client_rust.Tests.Runs.{decoder_runs}
use client_rust.Prelude.{Bytes, true, none, some, [], ◌∷◌, ◌++◌, length, ◌≡◌, refl, codes}
use client_rust.Std.{FloatParse, negsuc}
use client_rust.Error.{invalid_packet}
use client_rust.Response.{Value, nil, cons, Response}
use client_rust.Protocol.Outcome.{done, fail}
use client_rust.Protocol.Cursor.{decoder}
use client_rust.Protocol.State.{completed}
use client_rust.Protocol.Lfs
use client_rust.Protocol.Lfs.{unsigned, signed}
use client_rust.Protocol.Validate.{p_error}
use client_rust.Protocol.Pipe.{default, validate_pipe}

-- A parser that knows no float.
abbrev pub no_floats : FloatParse
no_floats = record { parse_f32 = λ _. none; parse_f64 = λ _. none }

decode_u16 :
    (let d = decoder (codes "1096\n") 0 in
      Lfs.complete (unsigned 16) (Lfs.initialize (unsigned 16) d) d)
    ≡ done (completed (record { v = 1096; state = tt })) (decoder (codes "1096\n") 5)
unfolding decoder_runs
decode_u16 = refl

decode_i16 :
    (let d = decoder (codes "-1032\n") 0 in
      Lfs.complete (signed 16) (Lfs.initialize (signed 16) d) d)
    ≡ done (completed (record { v = negsuc 1031; state = 0 })) (decoder (codes "-1032\n") 6)
unfolding decoder_runs
decode_i16 = refl

-- The packet of `t_pipe`, of two responses and two rows.
abbrev query : Bytes
query =
    0x12 ∷ 0x10 ∷ 0xFF ∷ 0xFF ∷ 0x11 ∷ codes "5\n"
    ++ 0 ∷ 1 ∷ 1 ∷ 0x0D ∷ codes "5\nsayan"
    ++ 2 ∷ codes "20\n"
    ++ 0x0E ∷ codes "0\n"

whole_pipe :
    validate_pipe no_floats 3 default (decoder query 0)
    ≡ done
        (completed (
          Response.empty
          ∷ Response.error 0xFFFF
          ∷ Response.row (record {
            values = cons Value.null (
                cons (Value.bool true) (
                  cons
                    (Value.string (codes "sayan"))
                    (cons (Value.uint8 20) (cons (Value.list nil) nil))));
          })
          ∷ []))
        (decoder query (length query))
unfolding decoder_runs
whole_pipe = refl

-- The error 0xFFFF cut behind its code: the rest of a valid packet is refused.
split_error :
    validate_pipe no_floats 1
      (record { processed = []; pending = some p_error })
      (decoder (0x10 ∷ 0xFF ∷ 0xFF ∷ []) 1)
    ≡ fail invalid_packet (decoder (0x10 ∷ 0xFF ∷ 0xFF ∷ []) 0)
unfolding decoder_runs
split_error = refl
