-- ===== src/Io/PipeExact.antt =====
-- What the server has sent when `execute_pipeline` of src/io/sync.rs returns responses.
use client_rust.Prelude.{◌≡◌, sym, ◌∙◌, All, Bytes, List, [], ◌∷◌, ◌++◌, map, length-append, arith}
use client_rust.Std.{FloatParse}
use client_rust.Error.{ok}
use client_rust.Itoa.{Itoa}
use client_rust.Response.{Response}
use client_rust.Query.{Pipeline}
use client_rust.Protocol.Outcome.{Outcome, done, fail, panic, out_of_fuel}
use client_rust.Protocol.Cursor.{decoder}
use client_rust.Protocol.State.{completed, pending}
use client_rust.Protocol.Pipe.{PipelineResult}
use client_rust.Protocol.Wire.Sound.{Sent}
use client_rust.Protocol.Wire.Sound.Pipes.{AllWire, validate_pipe-Sent}
use client_rust.Io.{received, TcpConnection, execute_pipeline}
use client_rust.Io.Chunks.{answered, verdict, End, silent, closed, broken, end_events, concat}
use client_rust.Io.PipeChunks.{PlainPiece, settle_pipe, verdict-execute_pipeline}

-- The bytes begin with those of the responses, one for each query of the pipeline.
abbrev pub HoldsAll : FloatParse → Pipeline → List Response → Bytes → Type 0
HoldsAll fp pipeline rs b =
    (s : Bytes) × (rest : Bytes) × (b ≡ s ++ rest) × AllWire fp pipeline.cnt rs s

settle_pipe-Sent :
    (fp : FloatParse) (pipeline : Pipeline) (end : End) (b : Bytes) (out : Outcome PipelineResult)
    (rs : List Response)
    → settle_pipe end out ≡ answered (ok rs)
    → Sent (AllWire fp pipeline.cnt) (decoder b 0) out
    → HoldsAll fp pipeline rs b
settle_pipe-Sent fp pipeline end b (done (completed c) d) rs e (s, rest, at, w, p) =
    let same : c ≡ rs = cc in (s, rest, at.1, rw (← same) w)
settle_pipe-Sent fp pipeline silent b (done (pending p) d) rs e w = cc
settle_pipe-Sent fp pipeline closed b (done (pending p) d) rs e w = cc
settle_pipe-Sent fp pipeline (broken x) b (done (pending p) d) rs e w = cc
settle_pipe-Sent fp pipeline end b (fail x d) rs e w = cc
settle_pipe-Sent fp pipeline end b panic rs e w = cc
settle_pipe-Sent fp pipeline end b out_of_fuel rs e w = cc

-- When a pipeline returns responses, they are one for each of its queries, and the bytes that the server
-- sent begin with them in the wire format, in their order, whatever pieces they were read in. It is asked that writing succeeds, that something was read,
-- that each piece holds a byte, and that no byte is 0xFF.
pub execute_pipeline-HoldsAll :
    (fp : FloatParse) (itoa : Itoa) (pipeline : Pipeline) (self : TcpConnection) (c : Bytes)
    (cs : List Bytes) (end : End) (rs : List Response)
    → self.con.write_errors ≡ []
    → self.con.events ≡ map received (c ∷ cs) ++ end_events end
    → All PlainPiece (c ∷ cs)
    → verdict (execute_pipeline fp itoa pipeline self) ≡ answered (ok rs)
    → HoldsAll fp pipeline rs (concat (c ∷ cs))
execute_pipeline-HoldsAll fp itoa pipeline self c cs end rs writes events v e =
    settle_pipe-Sent fp pipeline end (concat (c ∷ cs)) _ rs
      (sym (verdict-execute_pipeline fp itoa pipeline self c cs end writes events v) ∙ e)
      (validate_pipe-Sent fp pipeline.cnt (decoder (concat (c ∷ cs)) 0)
        (omega (arith, length-append c (concat cs), v.0.0)))
