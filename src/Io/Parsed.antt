-- ===== src/Io/Parsed.antt =====
-- `query_parse` of src/io/sync.rs on the bytes of a response.
use client_rust.Prelude.{ℕ, ◌≡◌, refl, All, Bytes, List, [], ◌∷◌, ◌++◌, map, Option, none, some}
use client_rust.Std.{FloatParse}
use client_rust.Error.{ClientResult, ok, err}
use client_rust.Itoa.{Itoa}
use client_rust.Response.{Response}
use client_rust.Response.Types.{ValueType, ResponseType, ResponseOf, TupleOf, tuple, rows}
use client_rust.Response.Parse.{from_response}
use client_rust.Response.RoundTrip.{Parses, to_row, from_response-to_row}
use client_rust.Query.{Query}
use client_rust.Protocol.Wire.{WireResponse}
use client_rust.Io.{received, TcpConnection, Run, returned, waiting, panicked, endless, query}
use client_rust.Io.Chunks.{Verdict, answered, hung, verdict, End, end_events, concat, NonEmpty}
use client_rust.Io.Replies.{query-WireResponse}
use client_rust.Io.Setup.{parse_answer, query_parse}

-- The end of a conversion, which may have no end.
abbrev pub converted : {A : Type 0} → Option (ClientResult A) → Verdict A
converted none = hung
converted (some r) = answered r

module _ (f : ℕ) (t : ResponseType) where
  parse_answer-ok :
      (self : TcpConnection) (resp : Response)
      → verdict (parse_answer f t (returned (ok resp) self)) ≡ converted (from_response f t resp)
  parse_answer-ok self resp =
      elim (from_response f t resp)
        as (λ x.
          verdict
            (elim x as (λ _. Run (ResponseOf t)) [ none ↦ endless | some r ↦ returned r self ])
          ≡ converted x) [ none ↦ refl | some r ↦ refl ]

  parse_answer_lem :
      (run : Run Response) (r : Response)
      → verdict run ≡ answered (ok r)
      → verdict (parse_answer f t run) ≡ converted (from_response f t r)
  parse_answer_lem (returned (ok resp) self) r e =
      let same : resp ≡ r = cc in rw (← same) (parse_answer-ok self resp)
  parse_answer_lem (returned (err x) self) r e = cc
  parse_answer_lem (waiting self) r e = cc
  parse_answer_lem panicked r e = cc
  parse_answer_lem endless r e = cc

module _ (fp : FloatParse) (itoa : Itoa) (q : Query) (self : TcpConnection) (c : Bytes)
    (cs : List Bytes) (end : End) where
  -- The answer of `query_parse` is the conversion of the response that the server sent, in whatever pieces
  -- its bytes are read and whatever follows it. It is asked that the packet can be written and that each
  -- piece holds a byte.
  pub query_parse-WireResponse :
      (f : ℕ) (t : ResponseType) {r : Response} {s : Bytes} (rest : Bytes)
      → self.con.write_errors ≡ []
      → self.con.events ≡ map received (c ∷ cs) ++ end_events end
      → All NonEmpty (c ∷ cs)
      → WireResponse fp r s
      → concat (c ∷ cs) ≡ s ++ rest
      → verdict (query_parse fp itoa f t q self) ≡ converted (from_response f t r)
  unfolding query_parse
  query_parse-WireResponse f t {r} rest writes events v wire all =
      parse_answer_lem f t (query fp itoa q self) r
        (query-WireResponse fp itoa q self c cs end rest writes events v wire all)

  -- Rows of typed columns that the server sends are returned by `query_parse` as the tuples that they hold,
  -- all of them and in their order. It is asked that no column's type is an `Option` or holds one, with fuel
  -- for the depth of each type, that the packet can be written and that each piece holds a byte.
  pub query_parse-to_row :
      (f : ℕ) (ts : List ValueType) (xss : List (TupleOf ts)) {s : Bytes} (rest : Bytes)
      → Parses f ts
      → self.con.write_errors ≡ []
      → self.con.events ≡ map received (c ∷ cs) ++ end_events end
      → All NonEmpty (c ∷ cs)
      → WireResponse fp (Response.rows (map (to_row ts) xss)) s
      → concat (c ∷ cs) ≡ s ++ rest
      → verdict (query_parse fp itoa f (rows (tuple ts)) q self) ≡ answered (ok xss)
  query_parse-to_row f ts xss rest p writes events v wire all = rw (
    query_parse-WireResponse f (rows (tuple ts)) rest writes events v wire all,
    from_response-to_row f ts xss p,
  )
