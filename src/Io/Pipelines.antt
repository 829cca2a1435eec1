-- ===== src/Io/Pipelines.antt =====
-- What `execute_pipeline` of src/io/sync.rs returns.
use client_rust.Prelude.{
  ℕ, ◌<◌, ◌≡◌, refl, Bool-cases, inl, inr, Bytes, List, [], ◌∷◌, ◌++◌, Option, none, some, length,
  ◌==◌,
}
use client_rust.Std.{FloatParse}
use client_rust.Error.{IoError, ok, err, protocol_error, invalid_packet}
use client_rust.Itoa.{Itoa}
use client_rust.Response.{Response, error}
use client_rust.Query.{Pipeline}
use client_rust.Protocol.Outcome.{Outcome, done, fail, panic, out_of_fuel}
use client_rust.Protocol.Cursor.{decoder, eof, current, slice, cursor_value, index, next, remaining}
use client_rust.Protocol.State.{completed, pending}
use client_rust.Protocol.Validate.{from_le_bytes, validate, begin_response, complete_error}
use client_rust.Protocol.Pipe.{
  MRespState, default, PipelineResult, validate_pipe, pipe_loop, pipe_round, pipe_packet,
}
use client_rust.Protocol.Pipe.Count.{Counted, validate_pipe-Counted}
use client_rust.Io.{
  ReadEvent, received, failed, TcpConnection, Run, returned, waiting, panicked, endless, with_pipe,
  write_all, pipeline_loop, execute_pipeline,
}
use client_rust.Io.Chunks.{answered, verdict}

-- If responses are returned, there are as many as `expected`, and one at least.
abbrev Answers : ℕ → Run (List Response) → Type 0
Answers expected (returned (ok rs) self) = (length rs ≡ expected) × (0 < length rs)
Answers expected (returned (err e) self) = Unit
Answers expected (waiting self) = Unit
Answers expected panicked = Unit
Answers expected endless = Unit

Answers-verdict :
    (expected : ℕ) (run : Run (List Response)) (rs : List Response)
    → Answers expected run
    → verdict run ≡ answered (ok rs)
    → (length rs ≡ expected) × (0 < length rs)
Answers-verdict expected (returned (ok rs') self) rs a e = let same : rs ≡ rs' = cc in rw same a
Answers-verdict expected (returned (err x) self) rs a e = cc
Answers-verdict expected (waiting self) rs a e = cc
Answers-verdict expected panicked rs a e = cc
Answers-verdict expected endless rs a e = cc

module _ (fp : FloatParse) (self : TcpConnection) (expected : ℕ) where
  with_pipe-Answers :
      (next_rounds : MRespState → ℕ → Run (List Response)) (events : List ReadEvent) (buf : Bytes)
      (out : Outcome PipelineResult)
      → ((s : MRespState) (i : ℕ) → Answers expected (next_rounds s i))
      → Counted expected out
      → Answers expected (with_pipe fp self next_rounds events buf out)
  with_pipe-Answers next_rounds events buf (done (completed r) d) h c = c
  with_pipe-Answers next_rounds events buf (done (pending s) d) h c = h s d.i
  with_pipe-Answers next_rounds events buf (fail e d) h c = tt
  with_pipe-Answers next_rounds events buf panic h c = tt
  with_pipe-Answers next_rounds events buf out_of_fuel h c = tt

  pipeline_loop-Answers :
      (events : List ReadEvent) (buf : Bytes) (s : MRespState) (i : ℕ)
      → Answers expected (pipeline_loop fp self expected events buf s i)
  unfolding pipeline_loop
  pipeline_loop-Answers [] buf s i = tt
  pipeline_loop-Answers (failed e ∷ events) buf s i = tt
  pipeline_loop-Answers (received chunk ∷ events) buf s i =
      let rounds = pipeline_loop-Answers events (buf ++ chunk) in
      elim (Bool-cases (length chunk == 0)) [
        | inl empty ↦ rw (Answers, empty) tt
        | inr full ↦
            rw (Answers, full)
              (with_pipe-Answers (pipeline_loop fp self expected events (buf ++ chunk)) events
                (buf ++ chunk) (validate_pipe fp expected s (decoder (buf ++ chunk) i)) rounds
                (validate_pipe-Counted fp expected s (decoder (buf ++ chunk) i)))
      ]

write_all-Answers :
    (expected : ℕ) (bytes : Bytes) (outcomes : List (Option IoError)) (self : TcpConnection)
    (f : TcpConnection → Run (List Response))
    → ((con : TcpConnection) → Answers expected (f con))
    → Answers expected (write_all bytes outcomes self f)
write_all-Answers expected bytes [] self f h = h _
write_all-Answers expected bytes (none ∷ outcomes) self f h = h _
write_all-Answers expected bytes (some e ∷ outcomes) self f h = tt

-- When `execute_pipeline` returns responses, there are exactly as many as the pipeline has queries, and
-- at least one: an empty pipeline never gets an answer that is not an error.
pub execute_pipeline-length :
    (fp : FloatParse) (itoa : Itoa) (pipeline : Pipeline) (self : TcpConnection)
    (rs : List Response)
    → verdict (execute_pipeline fp itoa pipeline self) ≡ answered (ok rs)
    → (length rs ≡ pipeline.cnt) × (0 < length rs)
unfolding execute_pipeline
execute_pipeline-length fp itoa pipeline self rs = Answers-verdict pipeline.cnt _ rs (
    write_all-Answers pipeline.cnt _ self.con.write_errors _ _ λ self₁.
      write_all-Answers pipeline.cnt _ self₁.con.write_errors _ _
        λ self₂. pipeline_loop-Answers fp _ pipeline.cnt self₂.con.events [] default 0)

-- An error response whose code has the low byte 0xFF is decoded when it is read at once, and refused as
-- an invalid packet when the read ends behind its first byte; the pipeline has one query, and writing
-- succeeds.
pub execute_pipeline_split :
    (fp : FloatParse) (itoa : Itoa) (pipeline : Pipeline) (con : TcpConnection) (high : ℕ)
    (events : List ReadEvent)
    → pipeline.cnt ≡ 1
    → con.con.write_errors ≡ []
    → (let with_events : List ReadEvent → TcpConnection =
          λ es. record con { con = record (con.con) { events = es } } in
        (verdict (
            execute_pipeline fp itoa pipeline
              (with_events (received (0x10 ∷ 0xFF ∷ high ∷ []) ∷ events)))
          ≡ answered (ok (error (from_le_bytes 0xFF high) ∷ [])))
        × (verdict (
              execute_pipeline fp itoa pipeline
                (with_events (received (0x10 ∷ []) ∷ received (0xFF ∷ high ∷ []) ∷ events)))
            ≡ answered (err (protocol_error invalid_packet))))
unfolding execute_pipeline pipeline_loop validate_pipe pipe_loop pipe_round pipe_packet eof current
    slice cursor_value index validate next begin_response complete_error remaining
execute_pipeline_split fp itoa pipeline con high events one writes = rw (one, writes) (refl, refl)
