-- ===== src/Io/Replies.antt =====
-- `query` of src/io/sync.rs on the bytes of a response, or on a part of them.
use client_rust.Prelude.{
  ◌≡◌, refl, sym, ◌∙◌, ap, All, Bytes, List, [], ◌∷◌, ◌++◌, map, append-nil, length-append, arith,
}
use client_rust.Std.{FloatParse}
use client_rust.Error.{ok}
use client_rust.Itoa.{Itoa}
use client_rust.Response.{Response}
use client_rust.Query.{Query}
use client_rust.Protocol.Outcome.{Decoder, Outcome, done, fail, panic, out_of_fuel}
use client_rust.Protocol.Cursor.{decoder}
use client_rust.Protocol.Extend.{IsValid}
use client_rust.Protocol.State.{completed, pending}
use client_rust.Protocol.Validate.{initial, validate, DecodeState}
use client_rust.Protocol.Wire.{WireResponse}
use client_rust.Protocol.Wire.Responses.{validate-WireResponse}
use client_rust.Protocol.Wire.Prefixes.{Waits, validate-prefix}
use client_rust.Io.{received, TcpConnection, query}
use client_rust.Io.Chunks.{
  answered, verdict, End, end_events, incomplete, settle, concat, NonEmpty, verdict-query,
}

pub concat-IsValid :
    (c : Bytes) (cs : List Bytes) → All NonEmpty (c ∷ cs) → IsValid (decoder (concat (c ∷ cs)) 0)
concat-IsValid c cs (h, v) = (omega (arith, length-append c (concat cs)), omega arith)

settle-Waits :
    (end : End) (d : Decoder) (out : Outcome DecodeState)
    → Waits d out
    → settle end out ≡ incomplete end
settle-Waits end d (done (completed c) d') w = absurd w
settle-Waits end d (done (pending s) d') w = refl
settle-Waits end d (fail e d') w = absurd w
settle-Waits end d panic w = absurd w
settle-Waits end d out_of_fuel w = absurd w

module _ (fp : FloatParse) (itoa : Itoa) (q : Query) (self : TcpConnection) (c : Bytes)
    (cs : List Bytes) (end : End) where
  -- A query is answered with the response that the server sent, in whatever pieces its bytes are read and
  -- whatever follows it. It is asked that the packet can be written and that each piece holds a byte.
  pub query-WireResponse :
      {r : Response} {s : Bytes} (rest : Bytes)
      → self.con.write_errors ≡ []
      → self.con.events ≡ map received (c ∷ cs) ++ end_events end
      → All NonEmpty (c ∷ cs)
      → WireResponse fp r s
      → concat (c ∷ cs) ≡ s ++ rest
      → verdict (query fp itoa q self) ≡ answered (ok r)
  query-WireResponse {r} {s} rest writes events v wire all =
      verdict-query fp itoa q self c cs end writes events v
      ∙ ap (settle end) (
          validate-WireResponse fp wire (decoder (concat (c ∷ cs)) 0) rest
            (concat-IsValid c cs v, all))

  -- As long as bytes of the response are missing, the query is not answered: it waits on a silent stream,
  -- and reports that a closed stream was reset, or the error of a broken one; it never takes what it has
  -- for a response or for an invalid one. It is asked that the packet can be written and that each piece
  -- holds a byte.
  pub query-prefix :
      (r : Response) (more : Bytes)
      → self.con.write_errors ≡ []
      → self.con.events ≡ map received (c ∷ cs) ++ end_events end
      → All NonEmpty (c ∷ cs)
      → WireResponse fp r (concat (c ∷ cs) ++ more)
      → NonEmpty more
      → verdict (query fp itoa q self) ≡ incomplete end
  query-prefix r more writes events v wire missing =
      let d : Decoder = decoder (concat (c ∷ cs)) 0 in
      let valid = concat-IsValid c cs v in
      verdict-query fp itoa q self c cs end writes events v
      ∙ settle-Waits end d (validate fp initial d) (
          validate-prefix fp r (concat (c ∷ cs)) more d wire valid.0 missing
            (valid, sym (append-nil (concat (c ∷ cs)))))
