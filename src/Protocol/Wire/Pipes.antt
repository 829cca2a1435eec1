-- ===== src/Protocol/Wire/Pipes.antt =====
-- `validate_pipe` of src/protocol/pipe.rs on the bytes of responses.
use client_rust.Prelude.{
  ℕ, zero, suc, ◌+◌, ◌<◌, ◌≡◌, ◌∙◌, ap, Bytes, true, false, none, [], ◌∷◌, ◌++◌, length, arith,
  List, length-append, ◌==◌, append_assoc, append-nil,
}
use client_rust.Std.{FloatParse}
use client_rust.Response.{Response}
use client_rust.Protocol.Outcome.{Decoder, done}
use client_rust.Protocol.State.{completed}
use client_rust.Protocol.Value.Resume.{left}
use client_rust.Protocol.Pipe.{
  illegal_packet_escape, default, with_response, pipe_loop, validate_pipe,
}
use client_rust.Protocol.Pipe.Rounds.{round_next}
use client_rust.Protocol.Wire.{WireResponse, WireResponses}
use client_rust.Protocol.Wire.At.{At, past, past-past, At-front, At-past, At-room}
use client_rust.Protocol.Wire.Responses.{
  code-WireResponse, length-WireResponse, validate-WireResponse,
}

module _ (fp : FloatParse) (expected : ℕ) where
  -- The round of a response.
  round-WireResponse :
      (f : ℕ) (before : List Response) {r : Response} {s : Bytes} (rest : Bytes) (d : Decoder)
      → WireResponse fp r s
      → At d s rest
      → pipe_loop fp (suc f) expected (record { processed = before; pending = none }) d
        ≡ with_response fp
            (pipe_loop fp f expected)
            expected
            (record { processed = before; pending = none })
            (completed r)
            (past d s)
  round-WireResponse f before {r} {s} rest d w at =
      let (c, t, e, small) = code-WireResponse fp w in
      let inside : d.i < length d.b =
        omega (arith, At-room d s rest at, length-WireResponse fp w) in
      let other : (c == illegal_packet_escape) ≡ false = ground arith in
      rw (
        round_next fp expected f (record { processed = before; pending = none }) d inside
            (at.1 ∙ ap (λ u. u ++ rest) e) other,
        validate-WireResponse fp w d rest at,
      )

  pipe_loop-WireResponses :
      (f : ℕ) (before : List Response) {rs : List Response} {s : Bytes} (rest : Bytes) (d : Decoder)
      → WireResponses fp rs s
      → At d s rest
      → 0 < length rs
      → length before + length rs ≡ expected
      → left d < f
      → pipe_loop fp f expected (record { processed = before; pending = none }) d
        ≡ done (completed (before ++ rs)) (past d s)
  pipe_loop-WireResponses zero before rest d ws at n all enough = absurd (omega arith)
  pipe_loop-WireResponses (suc f) before rest d WireResponses.nil at n all enough =
      absurd (omega arith)
  pipe_loop-WireResponses (suc f) before rest d (WireResponses.cons {r} {s} w WireResponses.nil) at
        n all enough =
      let count = length-append before (r ∷ []) in
      let last : (length (before ++ r ∷ []) == expected) ≡ true = ground arith in
      rw (round-WireResponse f before ([] ++ rest) d w (At-front d s [] rest at))
        (rw (with_response, last, append-nil s))
  pipe_loop-WireResponses (suc f) before rest d
        (WireResponses.cons {r} {s} {t} w (WireResponses.cons {r = r'} {rs = rs} w' ws)) at n all
        enough =
      let count = length-append before (r ∷ []) in
      let next : (length (before ++ r ∷ []) == expected) ≡ false = ground arith in
      let some_bytes = length-WireResponse fp w in
      let room = At-room d (s ++ t) rest at in
      rw (round-WireResponse f before (t ++ rest) d w (At-front d s t rest at)) (
        rw (with_response, next)
          (rw (
            pipe_loop-WireResponses f (before ++ r ∷ []) rest (past d s) (WireResponses.cons w' ws)
                (At-past d s t rest at) (omega arith) (omega arith)
                (omega (arith, length-append s t)),
            append_assoc before (r ∷ []) (r' ∷ rs),
            past-past d s t,
          )))

-- The bytes of as many responses as are expected are decoded to these responses, in their order, and
-- nothing behind them is read. It is asked that there is one at least.
pub validate_pipe-WireResponses :
    (fp : FloatParse) {rs : List Response} {s : Bytes} (rest : Bytes) (d : Decoder)
    → WireResponses fp rs s
    → At d s rest
    → 0 < length rs
    → validate_pipe fp (length rs) default d ≡ done (completed rs) (past d s)
unfolding validate_pipe
validate_pipe-WireResponses fp {rs} rest d ws at n =
    pipe_loop-WireResponses fp (length rs) (suc (suc (left d))) [] rest d ws at n (omega arith)
      (omega arith)
