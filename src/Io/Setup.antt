-- ===== src/Io/Setup.antt =====
-- `_handshake` and `query_parse` of src/io/sync.rs, over the methods of the connection.
use client_rust.Prelude.{
  ℕ, zero, suc, ◌-◌, Bytes, Option, none, some, List, [], ◌∷◌, ◌++◌, length, take, drop, ltb, ◌==◌,
  true, false,
}
use client_rust.Std.{FloatParse}
use client_rust.Error.{IoError, unexpected_eof, interrupted, ClientResult, ok, err, io_error}
use client_rust.Itoa.{Itoa}
use client_rust.Handshake.{Config, client_handshake, parse, accept}
use client_rust.Response.{Response}
use client_rust.Response.Types.{ResponseType, ResponseOf}
use client_rust.Response.Parse.{from_response}
use client_rust.Query.{Query}
use client_rust.Io.{
  ReadEvent, received, failed, TcpConnection, Run, returned, waiting, panicked, endless, left_with,
  write_all, query,
}

-- How `std::io::Read::read_exact` ends: with the bytes, or an error, and the events that are left; or it
-- waits.
pub data Reading : Type 0 where
  got : Bytes → List ReadEvent → Reading
  broke : IoError → List ReadEvent → Reading
  starved : Reading

-- `read_exact` of `n` further bytes behind those that were read: it reads on when it is interrupted. What
-- a piece holds beyond the buffer stays in the stream.
unfoldable pub read_exact : List ReadEvent → ℕ → Bytes → Reading
read_exact events zero acc = got acc events
read_exact [] (suc n) acc = starved
read_exact (failed e ∷ events) (suc n) acc = elim e [
  | interrupted ↦ read_exact events (suc n) acc
  | unexpected_eof ↦ broke unexpected_eof events
  | IoError.connection_reset ↦ broke IoError.connection_reset events
  | IoError.os_error k ↦ broke (IoError.os_error k) events
]
read_exact (received chunk ∷ events) (suc n) acc = elim (length chunk == 0) [
  | true ↦ broke unexpected_eof events
  | false ↦ elim (ltb (suc n) (length chunk)) [
    | true ↦ got (acc ++ take (suc n) chunk) (received (drop (suc n) chunk) ∷ events)
    | false ↦ read_exact events (suc n - length chunk) (acc ++ chunk)
  ]
]

-- `ServerHandshake::parse(resp)?` and the match on it, for the array of four bytes.
abbrev pub accept_array : Bytes → Option (ClientResult (Unit {0}))
accept_array (h ∷ major ∷ status ∷ msg ∷ []) = some (accept (parse h major status msg))
accept_array _ = none

abbrev pub with_answer : TcpConnection → Reading → Run (Unit {0})
with_answer self (got resp events) = elim (accept_array resp) [
  | some r ↦ returned r (left_with self events self.buf)
  | none ↦ panicked
]
with_answer self (broke e events) = returned (err (io_error e)) (left_with self events self.buf)
with_answer self starved = waiting self

-- `TcpConnection::_handshake`.
unfoldable pub handshake : Itoa → Config → TcpConnection → Run (Unit {0})
handshake itoa cfg self =
    write_all (client_handshake itoa cfg) self.con.write_errors self
      λ self'. with_answer self' (read_exact self'.con.events 4 [])

-- `.and_then(FromResponse::from_response)`, with the calls of `from_value` on fuel.
abbrev pub parse_answer : ℕ → (t : ResponseType) → Run Response → Run (ResponseOf t)
parse_answer f t (returned (ok resp) self) = elim (from_response f t resp) [
  | none ↦ endless
  | some r ↦ returned r self
]
parse_answer f t (returned (err e) self) = returned (err e) self
parse_answer f t (waiting self) = waiting self
parse_answer f t panicked = panicked
parse_answer f t endless = endless

-- `TcpConnection::query_parse`.
unfoldable pub query_parse :
    FloatParse → Itoa → ℕ → (t : ResponseType) → Query → TcpConnection → Run (ResponseOf t)
query_parse fp itoa f t q self = parse_answer f t (query fp itoa q self)
