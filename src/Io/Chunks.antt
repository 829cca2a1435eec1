-- ===== src/Io/Chunks.antt =====
-- `query` of src/io/sync.rs, over the pieces that its reads give.
use client_rust.Prelude.{
  ℕ, ◌≤◌, ◌<◌, ◌≡◌, refl, sym, ◌∙◌, ap, All, false, Bytes, List, [], ◌∷◌, ◌++◌, map, append_assoc,
  append-nil, length, length-append, ◌==◌, arith,
}
use client_rust.Std.{FloatParse}
use client_rust.Error.{IoError, connection_reset, ClientResult, ok, err, io_error, protocol_error}
use client_rust.Itoa.{Itoa}
use client_rust.Response.{Response}
use client_rust.Query.{Query}
use client_rust.Protocol.Outcome.{Outcome, done, fail, panic, out_of_fuel}
use client_rust.Protocol.Cursor.{decoder}
use client_rust.Protocol.State.{completed, pending}
use client_rust.Protocol.Validate.{ResponseState, initial, DecodeState, validate}
use client_rust.Protocol.Validate.Resume.{InProgress, CanDecode}
use client_rust.Protocol.Validate.Pieces.{Continues, validate_resume, InProgress→CanDecode}
use client_rust.Io.{
  ReadEvent, received, failed, TcpConnection, Run, returned, waiting, panicked, endless,
  with_decoded, query_loop, query,
}

-- What the caller of a method sees of it.
pub data Verdict {ℓ} (A : Type ℓ) : Type ℓ where
  answered : ClientResult A → Verdict A
  blocked : Verdict A
  crashed : Verdict A
  hung : Verdict A

abbrev pub verdict : {A : Type 0} → Run A → Verdict A
verdict (returned r self) = answered r
verdict (waiting self) = blocked
verdict panicked = crashed
verdict endless = hung

-- How the stream ends: nothing more comes, the peer closes it, or a read fails.
pub data End : Type 0 where
  silent : End
  closed : End
  broken : IoError → End

abbrev pub end_events : End → List ReadEvent
end_events silent = []
end_events closed = received [] ∷ []
end_events (broken e) = failed e ∷ []

abbrev pub incomplete {ℓ} : {A : Type ℓ} → End → Verdict A
incomplete silent = blocked
incomplete closed = answered (err (io_error connection_reset))
incomplete (broken e) = answered (err (io_error e))

-- The answer that one decoding of all that was received gives.
abbrev pub settle : End → Outcome DecodeState → Verdict Response
settle end (done (completed resp) d) = answered (ok resp)
settle end (done (pending s) d) = incomplete end
settle end (fail e d) = answered (err (protocol_error e))
settle end panic = crashed
settle end out_of_fuel = hung

abbrev pub concat : List Bytes → Bytes
concat [] = []
concat (c ∷ cs) = c ++ concat cs

abbrev pub NonEmpty : Bytes → Type 0
NonEmpty c = 0 < length c

query_loop-end :
    (fp : FloatParse) (self : TcpConnection) (end : End) (buf : Bytes) (s : ResponseState) (i : ℕ)
    → verdict (query_loop fp self (end_events end) buf s i) ≡ incomplete end
unfolding query_loop
query_loop-end fp self silent buf s i = refl
query_loop-end fp self closed buf s i = refl
query_loop-end fp self (broken e) buf s i = refl

query_loop-received :
    (fp : FloatParse) (self : TcpConnection) (chunk : Bytes) (events : List ReadEvent) (buf : Bytes)
    (s : ResponseState) (i : ℕ)
    → NonEmpty chunk
    → query_loop fp self (received chunk ∷ events) buf s i
      ≡ with_decoded fp self
          (query_loop fp self events (buf ++ chunk))
          events
          (buf ++ chunk)
          (validate fp s (decoder (buf ++ chunk) i))
unfolding query_loop
query_loop-received fp self chunk events buf s i h =
    let full : (length chunk == 0) ≡ false = ground arith in rw (query_loop, full)

module _ (fp : FloatParse) (self : TcpConnection) (end : End) where
  with_decoded-end :
      (buf : Bytes) (out : Outcome DecodeState)
      → verdict
          (with_decoded fp self (query_loop fp self (end_events end) buf) (end_events end) buf out)
        ≡ settle end out
  with_decoded-end buf (done (completed c) d) = refl
  with_decoded-end buf (done (pending s) d) = query_loop-end fp self end buf s d.i
  with_decoded-end buf (fail e d) = refl
  with_decoded-end buf panic = refl
  with_decoded-end buf out_of_fuel = refl

  -- A round that is not the last one, when the rounds that follow do what they should.
  with_decoded-more :
      (events : List ReadEvent) (more buf : Bytes) (i : ℕ) (whole out : Outcome DecodeState)
      → ((s : ResponseState) (j : ℕ)
          → InProgress s j
          → j ≤ length buf
          → verdict (query_loop fp self events buf s j)
            ≡ settle end (validate fp s (decoder (buf ++ more) j)))
      → Continues fp more (decoder buf i) whole out
      → verdict (with_decoded fp self (query_loop fp self events buf) events buf out)
        ≡ settle end whole
  with_decoded-more events more buf i whole (done (completed c) d) rounds (a, w) = rw w refl
  with_decoded-more events more buf i whole (done (pending s) d) rounds ((b, k, l), r, w) =
      rw w
        (rounds s d.i r l ∙ ap (λ x. settle end (validate fp s (decoder (x ++ more) d.i))) (sym b))
  with_decoded-more events more buf i whole (fail e d) rounds w = rw w refl
  with_decoded-more events more buf i whole panic rounds w = absurd w
  with_decoded-more events more buf i whole out_of_fuel rounds w = absurd w

  query_loop_lem :
      (c : Bytes) (cs : List Bytes) (buf : Bytes) (s : ResponseState) (i : ℕ)
      → All NonEmpty (c ∷ cs)
      → i ≤ length buf
      → CanDecode s (decoder (buf ++ c) i)
      → verdict (query_loop fp self (map received (c ∷ cs) ++ end_events end) buf s i)
        ≡ settle end (validate fp s (decoder (buf ++ concat (c ∷ cs)) i))
  query_loop_lem c [] buf s i v h k =
      rw (query_loop-received fp self c (end_events end) buf s i v.0, append-nil c)
        (with_decoded-end (buf ++ c) (validate fp s (decoder (buf ++ c) i)))
  query_loop_lem c (c' ∷ cs) buf s i v h k =
      let events : List ReadEvent = map received (c' ∷ cs) ++ end_events end in
      rw (query_loop-received fp self c events buf s i v.0, ← append_assoc buf c (concat (c' ∷ cs)))
        (with_decoded-more events (concat (c' ∷ cs)) (buf ++ c) i
          (validate fp s (decoder ((buf ++ c) ++ concat (c' ∷ cs)) i))
          (validate fp s (decoder (buf ++ c) i))
          (λ s' j r l.
            query_loop_lem c' cs (buf ++ c) s' j v.1 l
              (InProgress→CanDecode s' (decoder ((buf ++ c) ++ c') j) r))
          (validate_resume fp s (decoder (buf ++ c) i) (concat (c' ∷ cs))
            (omega (arith, length-append buf c, v.0)) k
            (omega (arith, length-append c' (concat cs), v.1.0))))

-- The answer to a query is settled by the bytes that the server sent before the stream ended, as by one
-- decoding of them all, in whatever pieces they were read: a response or a protocol error that they
-- hold is returned; if they hold a part of a response, the query waits, or returns the connection reset
-- of a closed stream or the error of a broken one. It is asked that the packet can be written, that
-- something was read, and that each piece holds a byte.
pub verdict-query :
    (fp : FloatParse) (itoa : Itoa) (q : Query) (self : TcpConnection) (c : Bytes) (cs : List Bytes)
    (end : End)
    → self.con.write_errors ≡ []
    → self.con.events ≡ map received (c ∷ cs) ++ end_events end
    → All NonEmpty (c ∷ cs)
    → verdict (query fp itoa q self)
      ≡ settle end (validate fp initial (decoder (concat (c ∷ cs)) 0))
unfolding query
verdict-query fp itoa q self c cs end writes events v =
    rw (writes, events) (query_loop_lem fp _ end c cs [] initial 0 v (omega arith) v.0)
