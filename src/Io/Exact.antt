-- ===== src/Io/Exact.antt =====
-- What the server has sent when `query` of src/io/sync.rs returns a response.
use client_rust.Prelude.{
  ◌<◌, ◌≡◌, sym, ◌∙◌, subst, All, All-prefix, Bytes, List, [], ◌∷◌, ◌++◌, map,
}
use client_rust.Std.{FloatParse}
use client_rust.Error.{ok}
use client_rust.Itoa.{Itoa}
use client_rust.Response.{Response}
use client_rust.Query.{Query}
use client_rust.Protocol.Outcome.{Decoder, Outcome, done, fail, panic, out_of_fuel}
use client_rust.Protocol.Cursor.{decoder}
use client_rust.Protocol.State.{completed, pending}
use client_rust.Protocol.Validate.{initial, validate, DecodeState}
use client_rust.Protocol.Wire.{WireResponse}
use client_rust.Protocol.Wire.Sound.{Sent}
use client_rust.Protocol.Wire.Sound.Responses.{validate-Sent}
use client_rust.Protocol.Wire.Types.{TypedResponse, WireResponse-TypedResponse}
use client_rust.Io.{received, TcpConnection, query}
use client_rust.Io.Chunks.{
  answered, verdict, End, silent, closed, broken, end_events, settle, concat, NonEmpty,
  verdict-query,
}
use client_rust.Io.Replies.{concat-IsValid}

-- The bytes begin with those of the response.
abbrev pub Holds : FloatParse → Response → Bytes → Type 0
Holds fp r b = (s : Bytes) × (rest : Bytes) × (b ≡ s ++ rest) × WireResponse fp r s

settle-Sent :
    (fp : FloatParse) (end : End) (b : Bytes) (out : Outcome DecodeState) (r : Response)
    → settle end out ≡ answered (ok r)
    → Sent (WireResponse fp) (decoder b 0) out
    → Holds fp r b
settle-Sent fp end b (done (completed c) d) r e (s, rest, at, w, p) =
    let same : c ≡ r = cc in (s, rest, at.1, rw (← same) w)
settle-Sent fp silent b (done (pending p) d) r e w = cc
settle-Sent fp closed b (done (pending p) d) r e w = cc
settle-Sent fp (broken x) b (done (pending p) d) r e w = cc
settle-Sent fp end b (fail x d) r e w = cc
settle-Sent fp end b panic r e w = cc
settle-Sent fp end b out_of_fuel r e w = cc

-- When a query returns a response, the bytes that the server sent begin with that response in the wire
-- format, whatever pieces they were read in: the client makes no response up. It is asked that the packet can
-- be written and that each piece holds a byte.
pub query-Holds :
    (fp : FloatParse) (itoa : Itoa) (q : Query) (self : TcpConnection) (c : Bytes) (cs : List Bytes)
    (end : End) (r : Response)
    → self.con.write_errors ≡ []
    → self.con.events ≡ map received (c ∷ cs) ++ end_events end
    → All NonEmpty (c ∷ cs)
    → verdict (query fp itoa q self) ≡ answered (ok r)
    → Holds fp r (concat (c ∷ cs))
query-Holds fp itoa q self c cs end r writes events v e =
    let d : Decoder = decoder (concat (c ∷ cs)) 0 in
    settle-Sent fp end (concat (c ∷ cs)) (validate fp initial d) r
      (sym (verdict-query fp itoa q self c cs end writes events v) ∙ e)
      (validate-Sent fp d ((concat-IsValid c cs v).0))

-- What a query returns is of its type: every integer is in the range of its width, with or without sign, every
-- text is valid UTF-8, every length is less than 2 ^ 64, all rows have one size, and an error code has 16 bits.
-- It is asked that the packet can be written, and that each piece is of one byte at least, all of them less
-- than 256.
pub query-TypedResponse :
    (fp : FloatParse) (itoa : Itoa) (q : Query) (self : TcpConnection) (c : Bytes) (cs : List Bytes)
    (end : End) (r : Response)
    → self.con.write_errors ≡ []
    → self.con.events ≡ map received (c ∷ cs) ++ end_events end
    → All NonEmpty (c ∷ cs)
    → All (λ x. x < 256) (concat (c ∷ cs))
    → verdict (query fp itoa q self) ≡ answered (ok r)
    → TypedResponse r
query-TypedResponse fp itoa q self c cs end r writes events v octets e =
    let (s, rest, all, wire) = query-Holds fp itoa q self c cs end r writes events v e in
    WireResponse-TypedResponse fp wire (All-prefix _ s rest (subst (All (λ x. x < 256)) all octets))
