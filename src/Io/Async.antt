-- ===== src/Io/Async.antt =====
-- `query` of src/io/aio.rs beside that of src/io/sync.rs.
use client_rust.Prelude.{
  ℕ, suc, Option, ◌≡◌, refl, false, ltb, Bytes, List, [], ◌∷◌, ◌++◌, length, none, some, ◌==◌,
  arith,
}
use client_rust.Std.{FloatParse}
use client_rust.Error.{IoError}
use client_rust.Itoa.{Itoa}
use client_rust.Response.{Response}
use client_rust.Query.{Query, write_packet}
use client_rust.Protocol.Outcome.{Outcome, done, fail, panic, out_of_fuel}
use client_rust.Protocol.Cursor.{decoder}
use client_rust.Protocol.State.{completed, pending}
use client_rust.Protocol.Validate.{ResponseState, initial, DecodeState, validate}
use client_rust.Io.{
  ReadEvent, received, failed, TcpConnection, Run, with_decoded, query_loop, query_loop_async,
  query, query_async, write_all, clear, read_response, read_response_async,
}

module _ (fp : FloatParse) (self : TcpConnection) where
  with_decoded-cong :
      (f g : ResponseState → ℕ → Run Response) (events : List ReadEvent) (buf : Bytes)
      (out : Outcome DecodeState)
      → ((s : ResponseState) (i : ℕ) → f s i ≡ g s i)
      → with_decoded fp self f events buf out ≡ with_decoded fp self g events buf out
  with_decoded-cong f g events buf (done (completed c) d) h = refl
  with_decoded-cong f g events buf (done (pending s) d) h = h s d.i
  with_decoded-cong f g events buf (fail e d) h = refl
  with_decoded-cong f g events buf panic h = refl
  with_decoded-cong f g events buf out_of_fuel h = refl

  query_loop_async_lem :
      (events : List ReadEvent) (buf : Bytes) (s : ResponseState) (cursor : ℕ)
      → query_loop_async fp self events 1 buf s cursor ≡ query_loop fp self events buf s cursor
  unfolding query_loop_async query_loop
  query_loop_async_lem [] buf s cursor = refl
  query_loop_async_lem (failed e ∷ events) buf s cursor = refl
  query_loop_async_lem (received [] ∷ events) buf s cursor = refl
  query_loop_async_lem (received (c ∷ chunk) ∷ events) buf s cursor =
      let buf' : Bytes = buf ++ (c ∷ chunk) in
      let full : (suc (length chunk) == 0) ≡ false = ground arith in
      let long : ltb (suc (length chunk)) 1 ≡ false = ground arith in
      rw (query_loop_async, query_loop, full, long)
        (with_decoded-cong (query_loop_async fp self events 1 buf') (query_loop fp self events buf')
          events buf' (validate fp s (decoder buf' cursor)) (query_loop_async_lem events buf'))

write_all-cong :
    (bytes : Bytes) (outcomes : List (Option IoError)) (self : TcpConnection)
    (f g : TcpConnection → Run Response)
    → ((con : TcpConnection) → f con ≡ g con)
    → write_all bytes outcomes self f ≡ write_all bytes outcomes self g
write_all-cong bytes [] self f g h = h _
write_all-cong bytes (none ∷ outcomes) self f g h = h _
write_all-cong bytes (some e ∷ outcomes) self f g h = refl

-- The asynchronous `query`, which leaves out reads shorter than it expects, does what the blocking one
-- does on every connection: the same result, and the same connection left behind.
pub query_async-query :
    (fp : FloatParse) (itoa : Itoa) (q : Query) (self : TcpConnection)
    → query_async fp itoa q self ≡ query fp itoa q self
unfolding query_async query
query_async-query fp itoa q self =
    let packet : Bytes = write_packet itoa q in
    write_all-cong packet self.con.write_errors (record self { buf = packet })
      (λ con. read_response_async fp (clear con)) (λ con. read_response fp (clear con))
      (λ con. query_loop_async_lem fp (clear con) con.con.events [] initial 0)
