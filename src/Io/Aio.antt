-- ===== src/Io/Aio.antt =====
-- The methods of src/io/aio.rs beside `query`: the pipeline, the handshake and `query_parse`.
use client_rust.Prelude.{
  ℕ, ◌≡◌, refl, Bytes, Option, none, some, List, [], ◌∷◌, ◌++◌, length, lf, ◌==◌, true, false,
  Bool-cases, inl, inr,
}
use client_rust.Std.{FloatParse}
use client_rust.Error.{IoError, connection_reset, ok, err, io_error, from_io, from_protocol}
use client_rust.Itoa.{Itoa}
use client_rust.Handshake.{Config, client_handshake}
use client_rust.Response.{Response}
use client_rust.Response.Types.{ResponseType, ResponseOf}
use client_rust.Query.{Query, Pipeline}
use client_rust.Protocol.Outcome.{Outcome, done, fail, panic, out_of_fuel}
use client_rust.Protocol.Cursor.{decoder}
use client_rust.Protocol.State.{completed, pending}
use client_rust.Protocol.Pipe.{MRespState, default, PipelineResult, validate_pipe}
use client_rust.Io.{
  ReadEvent, received, failed, TcpConnection, Run, returned, waiting, panicked, endless, left_with,
  write_all, clear, with_pipe, pipeline_loop, query_async, execute_pipeline,
}
use client_rust.Io.Setup.{Reading, with_answer, parse_answer, query_parse}
use client_rust.Io.Async.{query_async-query}

module _ (fp : FloatParse) (self : TcpConnection) where
  -- The match on the decoder's result in the loop of the asynchronous `execute_pipeline`.
  abbrev pub with_pipe_async :
      (MRespState → ℕ → Run (List Response))
      → List ReadEvent
      → Bytes
      → Outcome PipelineResult
      → Run (List Response)
  with_pipe_async next_rounds events buf (done (completed r) d) =
      returned (ok r) (left_with self events buf)
  with_pipe_async next_rounds events buf (done (pending state) d) = next_rounds state d.i
  with_pipe_async next_rounds events buf (fail e d) =
      returned (err (from_protocol e)) (left_with self events buf)
  with_pipe_async next_rounds events buf panic = panicked
  with_pipe_async next_rounds events buf out_of_fuel = endless

  -- The loop of the asynchronous `execute_pipeline`.
  unfoldable pub pipeline_loop_async :
      ℕ → List ReadEvent → Bytes → MRespState → ℕ → Run (List Response)
  pipeline_loop_async expected [] buf state cursor = waiting (left_with self [] buf)
  pipeline_loop_async expected (failed e ∷ events) buf state cursor =
      returned (err (from_io e)) (left_with self events buf)
  pipeline_loop_async expected (received chunk ∷ events) buf state cursor =
      elim (length chunk == 0) [
        | true ↦ returned (err (io_error connection_reset)) (left_with self events buf)
        | false ↦
            with_pipe_async (pipeline_loop_async expected events (buf ++ chunk)) events
              (buf ++ chunk) (validate_pipe fp expected state (decoder (buf ++ chunk) cursor))
      ]

-- `TcpConnection::execute_pipeline`.
unfoldable pub execute_pipeline_async :
    FloatParse → Itoa → Pipeline → TcpConnection → Run (List Response)
execute_pipeline_async fp itoa pipeline self =
    let header = b'P' ∷ (itoa.format (length pipeline.buf) ++ lf ∷ []) in
    write_all header self.con.write_errors (record self { buf = header })
      λ self₁.
        write_all pipeline.buf self₁.con.write_errors self₁
          λ self₂. pipeline_loop_async fp (clear self₂) pipeline.cnt self₂.con.events [] default 0

-- `TcpConnection::query_parse`, with the calls of `from_value` on fuel.
unfoldable pub query_parse_async :
    FloatParse → Itoa → ℕ → (t : ResponseType) → Query → TcpConnection → Run (ResponseOf t)
query_parse_async fp itoa f t q self = parse_answer f t (query_async fp itoa q self)

-- `AsyncReadExt::read_exact` of tokio: the events, how many bytes, and those that were read.
abbrev pub ReadExact : Type 0
ReadExact = List ReadEvent → ℕ → Bytes → Reading

-- `TcpConnection::_handshake`.
unfoldable pub handshake_async : ReadExact → Itoa → Config → TcpConnection → Run (Unit {0})
handshake_async read_exact_async itoa cfg self =
    write_all (client_handshake itoa cfg) self.con.write_errors self
      λ self'. with_answer self' (read_exact_async self'.con.events 4 [])

module _ (fp : FloatParse) (self : TcpConnection) where
  with_pipe_async-with_pipe :
      (k k' : MRespState → ℕ → Run (List Response)) (events : List ReadEvent) (buf : Bytes)
      (out : Outcome PipelineResult)
      → ((s : MRespState) (i : ℕ) → k s i ≡ k' s i)
      → with_pipe_async fp self k events buf out ≡ with_pipe fp self k' events buf out
  with_pipe_async-with_pipe k k' events buf (done (completed r) d) h = refl
  with_pipe_async-with_pipe k k' events buf (done (pending s) d) h = h s d.i
  with_pipe_async-with_pipe k k' events buf (fail e d) h = refl
  with_pipe_async-with_pipe k k' events buf panic h = refl
  with_pipe_async-with_pipe k k' events buf out_of_fuel h = refl

  pipeline_loop_async-pipeline_loop :
      (expected : ℕ) (events : List ReadEvent) (buf : Bytes) (s : MRespState) (i : ℕ)
      → pipeline_loop_async fp self expected events buf s i
        ≡ pipeline_loop fp self expected events buf s i
  unfolding pipeline_loop_async pipeline_loop
  pipeline_loop_async-pipeline_loop expected [] buf s i = refl
  pipeline_loop_async-pipeline_loop expected (failed e ∷ events) buf s i = refl
  pipeline_loop_async-pipeline_loop expected (received c ∷ events) buf s i =
      elim (Bool-cases (length c == 0)) [
        | inl none_read ↦ rw (pipeline_loop_async, pipeline_loop, none_read)
        | inr some_read ↦
            rw (pipeline_loop_async, pipeline_loop, some_read)
              (with_pipe_async-with_pipe _ _ events (buf ++ c) _
                (λ s' j. pipeline_loop_async-pipeline_loop expected events (buf ++ c) s' j))
      ]

write_all-continue :
    (bytes : Bytes) (outcomes : List (Option IoError)) (self : TcpConnection)
    (k k' : TcpConnection → Run (List Response))
    → ((s : TcpConnection) → k s ≡ k' s)
    → write_all bytes outcomes self k ≡ write_all bytes outcomes self k'
write_all-continue bytes [] self k k' h = h _
write_all-continue bytes (none ∷ outcomes) self k k' h = h _
write_all-continue bytes (some e ∷ outcomes) self k k' h = refl

-- A pipeline that is run by the asynchronous client returns what the blocking client returns, and leaves
-- the connection alike, on every connection: whatever its writes and reads give, errors included.
pub execute_pipeline_async-execute_pipeline :
    (fp : FloatParse) (itoa : Itoa) (pipeline : Pipeline) (self : TcpConnection)
    → execute_pipeline_async fp itoa pipeline self ≡ execute_pipeline fp itoa pipeline self
unfolding execute_pipeline_async execute_pipeline
execute_pipeline_async-execute_pipeline fp itoa pipeline self =
    write_all-continue _ self.con.write_errors _ _ _ λ self₁.
      write_all-continue pipeline.buf self₁.con.write_errors self₁ _ _ λ self₂.
        pipeline_loop_async-pipeline_loop fp (clear self₂) pipeline.cnt self₂.con.events [] default
          0

-- What is parsed is the answer of the query, which is the same.
pub query_parse_async_lem :
    (fp : FloatParse) (itoa : Itoa) (f : ℕ) (t : ResponseType) (q : Query) (self : TcpConnection)
    → query_parse_async fp itoa f t q self ≡ query_parse fp itoa f t q self
unfolding query_parse_async query_parse
query_parse_async_lem fp itoa f t q self = rw (query_async-query fp itoa q self)
