-- ===== src/Io/PipeChunks.antt =====
-- `execute_pipeline` of src/io/sync.rs, over the pieces that its reads give.
use client_rust.Prelude.{
  ℕ, ◌≤◌, ◌≡◌, refl, sym, ◌∙◌, ap, All, All-append, false, Bytes, List, [], ◌∷◌, ◌++◌, map,
  append_assoc, append-nil, length, length-append, ◌==◌, arith,
}
use client_rust.Std.{FloatParse}
use client_rust.Error.{ok, err, protocol_error}
use client_rust.Itoa.{Itoa}
use client_rust.Response.{Response}
use client_rust.Query.{Pipeline}
use client_rust.Protocol.Outcome.{Outcome, done, fail, panic, out_of_fuel}
use client_rust.Protocol.Cursor.{decoder}
use client_rust.Protocol.State.{completed, pending}
use client_rust.Protocol.Pipe.{MRespState, default, PipelineResult, validate_pipe}
use client_rust.Protocol.Pipe.Rounds.{Plain, PipeReady}
use client_rust.Protocol.Pipe.Resume.{PipeContinues, validate_pipe_resume}
use client_rust.Io.{ReadEvent, received, TcpConnection, with_pipe, pipeline_loop, execute_pipeline}
use client_rust.Io.Chunks.{
  Verdict, answered, crashed, hung, verdict, End, silent, closed, broken, end_events, incomplete,
  concat, NonEmpty,
}

-- The answer that one decoding of all that was received gives.
abbrev pub settle_pipe : End → Outcome PipelineResult → Verdict (List Response)
settle_pipe end (done (completed rs) d) = answered (ok rs)
settle_pipe end (done (pending s) d) = incomplete end
settle_pipe end (fail e d) = answered (err (protocol_error e))
settle_pipe end panic = crashed
settle_pipe end out_of_fuel = hung

-- A piece that holds a byte, and no byte that `validate_pipe` refuses.
abbrev pub PlainPiece : Bytes → Type 0
PlainPiece c = NonEmpty c × Plain c

Plain-concat : (cs : List Bytes) → All PlainPiece cs → Plain (concat cs)
Plain-concat [] v = tt
Plain-concat (c ∷ cs) ((h, p), v) = All-append _ c (concat cs) p (Plain-concat cs v)

module _ (fp : FloatParse) (self : TcpConnection) (expected : ℕ) where
  pipeline_loop-end :
      (end : End) (buf : Bytes) (s : MRespState) (i : ℕ)
      → verdict (pipeline_loop fp self expected (end_events end) buf s i) ≡ incomplete end
  unfolding pipeline_loop
  pipeline_loop-end silent buf s i = refl
  pipeline_loop-end closed buf s i = refl
  pipeline_loop-end (broken e) buf s i = refl

  pub pipeline_loop-received :
      (chunk : Bytes) (events : List ReadEvent) (buf : Bytes) (s : MRespState) (i : ℕ)
      → NonEmpty chunk
      → pipeline_loop fp self expected (received chunk ∷ events) buf s i
        ≡ with_pipe fp self
            (pipeline_loop fp self expected events (buf ++ chunk))
            events
            (buf ++ chunk)
            (validate_pipe fp expected s (decoder (buf ++ chunk) i))
  unfolding pipeline_loop
  pipeline_loop-received chunk events buf s i h =
      let full : (length chunk == 0) ≡ false = ground arith in rw (pipeline_loop, full)

  module _ (end : End) where
    with_pipe-end :
        (buf : Bytes) (out : Outcome PipelineResult)
        → verdict (
            with_pipe fp self
              (pipeline_loop fp self expected (end_events end) buf)
              (end_events end)
              buf
              out)
          ≡ settle_pipe end out
    with_pipe-end buf (done (completed c) d) = refl
    with_pipe-end buf (done (pending s) d) = pipeline_loop-end end buf s d.i
    with_pipe-end buf (fail e d) = refl
    with_pipe-end buf panic = refl
    with_pipe-end buf out_of_fuel = refl

    -- A round that is not the last one, when the rounds that follow do what they should.
    with_pipe-more :
        (events : List ReadEvent) (more buf : Bytes) (i : ℕ) (whole out : Outcome PipelineResult)
        → ((s : MRespState) (j : ℕ)
            → PipeReady s.pending j
            → j ≤ length buf
            → verdict (pipeline_loop fp self expected events buf s j)
              ≡ settle_pipe end (validate_pipe fp expected s (decoder (buf ++ more) j)))
        → PipeContinues fp expected more (decoder buf i) whole out
        → verdict (with_pipe fp self (pipeline_loop fp self expected events buf) events buf out)
          ≡ settle_pipe end whole
    with_pipe-more events more buf i whole (done (completed c) d) rounds (a, w) = rw w refl
    with_pipe-more events more buf i whole (done (pending s) d) rounds ((b, k, l), r, w) = rw w (
        rounds s d.i r l
        ∙ ap (λ x. settle_pipe end (validate_pipe fp expected s (decoder (x ++ more) d.i))) (sym b))
    with_pipe-more events more buf i whole (fail e d) rounds w = rw w refl
    with_pipe-more events more buf i whole panic rounds w = absurd w
    with_pipe-more events more buf i whole out_of_fuel rounds w = absurd w

    pipeline_loop_lem :
        (c : Bytes) (cs : List Bytes) (buf : Bytes) (s : MRespState) (i : ℕ)
        → All PlainPiece (c ∷ cs)
        → Plain buf
        → PipeReady s.pending i
        → i ≤ length buf
        → verdict (pipeline_loop fp self expected (map received (c ∷ cs) ++ end_events end) buf s i)
          ≡ settle_pipe end (validate_pipe fp expected s (decoder (buf ++ concat (c ∷ cs)) i))
    pipeline_loop_lem c [] buf s i v p r h =
        rw (pipeline_loop-received c (end_events end) buf s i v.0.0, append-nil c)
          (with_pipe-end (buf ++ c) (validate_pipe fp expected s (decoder (buf ++ c) i)))
    pipeline_loop_lem c (c' ∷ cs) buf s i v p r h =
        let events : List ReadEvent = map received (c' ∷ cs) ++ end_events end in
        let plain : Plain (buf ++ c) = All-append _ buf c p v.0.1 in
        let size = length-append buf c in
        rw (pipeline_loop-received c events buf s i v.0.0, ← append_assoc buf c (concat (c' ∷ cs)))
          (with_pipe-more events (concat (c' ∷ cs)) (buf ++ c) i
            (validate_pipe fp expected s (decoder ((buf ++ c) ++ concat (c' ∷ cs)) i))
            (validate_pipe fp expected s (decoder (buf ++ c) i))
            (λ s' j r' l. pipeline_loop_lem c' cs (buf ++ c) s' j v.1 plain r' l)
            (validate_pipe_resume fp expected s (decoder (buf ++ c) i) (concat (c' ∷ cs))
              (omega (arith, v.0.0), omega arith) r
              (omega (arith, length-append c' (concat cs), v.1.0.0)) plain
              (Plain-concat (c' ∷ cs) v.1)))

-- The answer to a pipeline is settled by the bytes that the server sent before the stream ended, as by one
-- decoding of them all, in whatever pieces they were read. It is asked that writing succeeds, that
-- something was read, that each piece holds a byte, and that no byte is 0xFF.
pub verdict-execute_pipeline :
    (fp : FloatParse) (itoa : Itoa) (pipeline : Pipeline) (self : TcpConnection) (c : Bytes)
    (cs : List Bytes) (end : End)
    → self.con.write_errors ≡ []
    → self.con.events ≡ map received (c ∷ cs) ++ end_events end
    → All PlainPiece (c ∷ cs)
    → verdict (execute_pipeline fp itoa pipeline self)
      ≡ settle_pipe end (validate_pipe fp pipeline.cnt default (decoder (concat (c ∷ cs)) 0))
unfolding execute_pipeline
verdict-execute_pipeline fp itoa pipeline self c cs end writes events v =
    rw (writes, events)
      (pipeline_loop_lem fp _ pipeline.cnt end c cs [] default 0 v tt tt (omega arith))
