-- ===== src/Io/PipeReplies.antt =====
-- `execute_pipeline` of src/io/sync.rs on the bytes of responses.
use client_rust.Prelude.{
  ◌<◌, ◌≡◌, ◌∙◌, ap, All, Bytes, List, [], ◌∷◌, ◌++◌, map, length, length-append, arith,
}
use client_rust.Std.{FloatParse}
use client_rust.Error.{ok}
use client_rust.Itoa.{Itoa}
use client_rust.Response.{Response}
use client_rust.Query.{Pipeline}
use client_rust.Protocol.Outcome.{done}
use client_rust.Protocol.Cursor.{decoder}
use client_rust.Protocol.State.{completed}
use client_rust.Protocol.Pipe.{default, validate_pipe}
use client_rust.Protocol.Wire.{WireResponses}
use client_rust.Protocol.Wire.At.{past}
use client_rust.Protocol.Wire.Pipes.{validate_pipe-WireResponses}
use client_rust.Io.{ReadEvent, received, TcpConnection, execute_pipeline}
use client_rust.Io.Chunks.{answered, verdict, End, end_events, concat, NonEmpty}
use client_rust.Io.PipeChunks.{
  PlainPiece, settle_pipe, verdict-execute_pipeline, pipeline_loop-received,
}

module _ (fp : FloatParse) (itoa : Itoa) (pipeline : Pipeline) (self : TcpConnection) where
  decoded :
      {rs : List Response} {s : Bytes} (rest b : Bytes)
      → WireResponses fp rs s
      → length rs ≡ pipeline.cnt
      → 0 < pipeline.cnt
      → 0 < length b
      → b ≡ s ++ rest
      → validate_pipe fp pipeline.cnt default (decoder b 0)
        ≡ done (completed rs) (past (decoder b 0) s)
  decoded {rs} {s} rest b ws count some_query some_bytes all = rw (← count) (
      validate_pipe-WireResponses fp rest (decoder b 0) ws ((some_bytes, omega arith), all)
        (omega arith))

  -- A pipeline is answered with the responses to its queries, in their order, when the server sends as many
  -- as the pipeline has queries, in whatever pieces their bytes are read. It is asked that writing succeeds,
  -- that the pipeline is not empty, that each piece holds a byte, and that no byte is 0xFF.
  pub execute_pipeline-WireResponses :
      {rs : List Response} {s : Bytes} (rest c : Bytes) (cs : List Bytes) (end : End)
      → self.con.write_errors ≡ []
      → self.con.events ≡ map received (c ∷ cs) ++ end_events end
      → All PlainPiece (c ∷ cs)
      → WireResponses fp rs s
      → length rs ≡ pipeline.cnt
      → 0 < pipeline.cnt
      → concat (c ∷ cs) ≡ s ++ rest
      → verdict (execute_pipeline fp itoa pipeline self) ≡ answered (ok rs)
  execute_pipeline-WireResponses rest c cs end writes events v ws count some_query all =
      verdict-execute_pipeline fp itoa pipeline self c cs end writes events v
      ∙ ap (settle_pipe end) (
          decoded rest (concat (c ∷ cs)) ws count some_query
            (omega (arith, length-append c (concat cs), v.0.0)) all)

  -- A pipeline is answered with the responses to its queries, in their order, when they all come with the
  -- first read, whatever bytes they hold. It is asked that writing succeeds, that the pipeline is not empty,
  -- and that the server sends as many responses as the pipeline has queries.
  pub execute_pipeline-at_once :
      {rs : List Response} {s : Bytes} (rest c : Bytes) (events : List ReadEvent)
      → self.con.write_errors ≡ []
      → self.con.events ≡ received c ∷ events
      → NonEmpty c
      → WireResponses fp rs s
      → length rs ≡ pipeline.cnt
      → 0 < pipeline.cnt
      → c ≡ s ++ rest
      → verdict (execute_pipeline fp itoa pipeline self) ≡ answered (ok rs)
  unfolding execute_pipeline
  execute_pipeline-at_once rest c events writes reads some_bytes ws count some_query all =
      rw (writes, reads)
        (rw (
          pipeline_loop-received fp _ pipeline.cnt c events [] default 0 some_bytes,
          decoded rest c ws count some_query some_bytes all,
        ))
