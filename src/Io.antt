-- ===== src/Io.antt =====
-- src/io/sync.rs and src/io/aio.rs: the exchange of a query or a pipeline with the server.
pub mod Setup
pub mod Parsed
pub mod Aio
pub mod Connect
pub mod Sessions
pub mod Chunks
pub mod Replies
pub mod Exact
pub mod PipeChunks
pub mod PipeReplies
pub mod PipeExact
pub mod Answer
pub mod Async
pub mod Pipelines
use client_rust.Prelude.{
  ℕ, ◌+◌, Bytes, Option, none, some, true, false, [], ◌∷◌, ◌++◌, List, length, ltb, ◌==◌, lf,
}
use client_rust.Std.{FloatParse}
use client_rust.Error.{
  IoError, connection_reset, ClientResult, ok, err, io_error, protocol_error, from_io,
  from_protocol,
}
use client_rust.Response.{Response}
use client_rust.Itoa.{Itoa}
use client_rust.Query.{Query, write_packet, Pipeline}
use client_rust.Protocol.Outcome.{Decoder, Outcome, done, fail, panic, out_of_fuel}
use client_rust.Protocol.Cursor.{decoder}
use client_rust.Protocol.State.{completed, pending}
use client_rust.Protocol.Validate.{ResponseState, initial, DecodeState, validate}
use client_rust.Protocol.Pipe.{MRespState, default, PipelineResult, validate_pipe}

-- What one call of `read` gives: the bytes that it put into the buffer, or an error.
pub data ReadEvent : Type 0 where
  received : Bytes → ReadEvent
  failed : IoError → ReadEvent

-- The stream `con`: what the calls of `write_all` that succeeded wrote to it, the outcomes of the next
-- calls of `write_all` (a call behind the list succeeds), and those of the next calls of `read` (a call
-- behind the list waits).
pub record Stream : Type 0 where
  pub written : Bytes
  pub write_errors : List (Option IoError)
  pub events : List ReadEvent

-- `struct TcpConnection`.
pub record TcpConnection : Type 0 where
  pub con : Stream
  pub buf : Bytes

-- How a method of the connection ends, with the connection as it leaves it: it returns; it waits for
-- bytes that never come; it panics; or a loop of the decoder has no end.
pub data Run {ℓ} (A : Type ℓ) : Type ℓ where
  returned : ClientResult A → TcpConnection → Run A
  waiting : TcpConnection → Run A
  panicked : Run A
  endless : Run A

-- The connection with `events` still to come and `buf` as its buffer.
abbrev pub left_with : TcpConnection → List ReadEvent → Bytes → TcpConnection
left_with self events buf = record { con = record (self.con) { events = events }; buf = buf }

-- `self.con.write_all(bytes)?`, over what follows it.
abbrev pub write_all {ℓ} :
    {A : Type ℓ} → Bytes → List (Option IoError) → TcpConnection → (TcpConnection → Run A) → Run A
write_all bytes [] self k =
    k (record self { con = record (self.con) { written = self.con.written ++ bytes } })
write_all bytes (none ∷ outcomes) self k = k (record self {
  con = record (self.con) { written = self.con.written ++ bytes; write_errors = outcomes };
})
write_all bytes (some e ∷ outcomes) self k =
    returned (err (from_io e)) (record self { con = record (self.con) { write_errors = outcomes } })

abbrev pub clear : TcpConnection → TcpConnection
clear self = record self { buf = [] }

module _ (fp : FloatParse) (self : TcpConnection) where
  -- What a round of the reading loop of `query` does with the decoder's outcome.
  abbrev pub with_decoded :
      (ResponseState → ℕ → Run Response)
      → List ReadEvent
      → Bytes
      → Outcome DecodeState
      → Run Response
  with_decoded next_rounds events buf (done (completed resp) d) =
      returned (ok resp) (left_with self events buf)
  with_decoded next_rounds events buf (done (pending state) d) = next_rounds state d.i
  with_decoded next_rounds events buf (fail e d) =
      returned (err (protocol_error e)) (left_with self events buf)
  with_decoded next_rounds events buf panic = panicked
  with_decoded next_rounds events buf out_of_fuel = endless

  -- The loop of the blocking `query`: each round takes one event.
  unfoldable pub query_loop : List ReadEvent → Bytes → ResponseState → ℕ → Run Response
  query_loop [] buf state cursor = waiting (left_with self [] buf)
  query_loop (failed e ∷ events) buf state cursor =
      returned (err (io_error e)) (left_with self events buf)
  query_loop (received chunk ∷ events) buf state cursor = elim (length chunk == 0) [
    | true ↦ returned (err (io_error connection_reset)) (left_with self events buf)
    | false ↦
        with_decoded (query_loop events (buf ++ chunk)) events (buf ++ chunk)
          (validate fp state (decoder (buf ++ chunk) cursor))
  ]

  -- The loop of the asynchronous `query`, which leaves out a read that is shorter than expected.
  unfoldable pub query_loop_async : List ReadEvent → ℕ → Bytes → ResponseState → ℕ → Run Response
  query_loop_async [] expected buf state cursor = waiting (left_with self [] buf)
  query_loop_async (failed e ∷ events) expected buf state cursor =
      returned (err (io_error e)) (left_with self events buf)
  query_loop_async (received chunk ∷ events) expected buf state cursor = elim (length chunk == 0) [
    | true ↦ returned (err (io_error connection_reset)) (left_with self events buf)
    | false ↦ elim (ltb (length chunk) expected) [
      | true ↦ query_loop_async events expected buf state cursor
      | false ↦
          with_decoded (query_loop_async events 1 (buf ++ chunk)) events (buf ++ chunk)
            (validate fp state (decoder (buf ++ chunk) cursor))
    ]
  ]

  abbrev pub with_pipe :
      (MRespState → ℕ → Run (List Response))
      → List ReadEvent
      → Bytes
      → Outcome PipelineResult
      → Run (List Response)
  with_pipe next_rounds events buf (done (completed r) d) =
      returned (ok r) (left_with self events buf)
  with_pipe next_rounds events buf (done (pending state) d) = next_rounds state d.i
  with_pipe next_rounds events buf (fail e d) =
      returned (err (from_protocol e)) (left_with self events buf)
  with_pipe next_rounds events buf panic = panicked
  with_pipe next_rounds events buf out_of_fuel = endless

  -- The loop of `execute_pipeline`.
  unfoldable pub pipeline_loop : ℕ → List ReadEvent → Bytes → MRespState → ℕ → Run (List Response)
  pipeline_loop expected [] buf state cursor = waiting (left_with self [] buf)
  pipeline_loop expected (failed e ∷ events) buf state cursor =
      returned (err (io_error e)) (left_with self events buf)
  pipeline_loop expected (received chunk ∷ events) buf state cursor = elim (length chunk == 0) [
    | true ↦ returned (err (io_error connection_reset)) (left_with self events buf)
    | false ↦
        with_pipe (pipeline_loop expected events (buf ++ chunk)) events (buf ++ chunk)
          (validate_pipe fp expected state (decoder (buf ++ chunk) cursor))
  ]

-- `Decoder::MIN_READBACK`.
abbrev pub min_readback : ℕ
min_readback = 1

module _ (fp : FloatParse) where
  -- The reading part of `query`, after `self.buf.clear()`.
  abbrev pub read_response : TcpConnection → Run Response
  read_response self = query_loop fp self self.con.events [] initial 0

  abbrev pub read_response_async : TcpConnection → Run Response
  read_response_async self = query_loop_async fp self self.con.events min_readback [] initial 0

module _ (fp : FloatParse) (itoa : Itoa) where
  -- `TcpConnection::query` of the blocking client.
  unfoldable pub query : Query → TcpConnection → Run Response
  query q self =
      let packet = write_packet itoa q in
      write_all packet self.con.write_errors (record self { buf = packet })
        λ self'. read_response fp (clear self')

  -- `TcpConnection::query` of the asynchronous client.
  unfoldable pub query_async : Query → TcpConnection → Run Response
  query_async q self =
      let packet = write_packet itoa q in
      write_all packet self.con.write_errors (record self { buf = packet })
        λ self'. read_response_async fp (clear self')

  -- `TcpConnection::execute_pipeline` of the blocking client.
  unfoldable pub execute_pipeline : Pipeline → TcpConnection → Run (List Response)
  execute_pipeline pipeline self =
      let header = b'P' ∷ (itoa.format (length pipeline.buf) ++ lf ∷ []) in
      write_all header self.con.write_errors (record self { buf = header })
        λ self₁.
          write_all pipeline.buf self₁.con.write_errors self₁
            λ self₂. pipeline_loop fp (clear self₂) pipeline.cnt self₂.con.events [] default 0
