-- ===== src/Protocol/Wire/Sound/Items.antt =====
-- The lists of values and the rows that the loops of src/protocol/mod.rs have read.
use client_rust.Prelude.{
  ℕ, zero, suc, ◌+◌, ◌≡◌, refl, sym, ap, ◌∙◌, List, [], ◌∷◌, ◌++◌, map, length, drop, arith, ◌==◌,
  Bool-cases, inl, inr, dec_lt, none, append_assoc, append-nil,
}
use client_rust.Std.{FloatParse}
use client_rust.Response.{Values, nil, cons, count, push, Row}
use client_rust.Protocol.Outcome.{Decoder}
use client_rust.Protocol.Extend.{IsValid}
use client_rust.Protocol.Sp.{pending_size}
use client_rust.Protocol.Value.{absent, items, initialize_stream}
use client_rust.Protocol.Stream.{element, stream_loop, complete_items}
use client_rust.Protocol.Stream.Resume as StreamRounds
use client_rust.Protocol.Multi.{multi_loop}
use client_rust.Protocol.Multi.Loop.{sized, length_push, round_full, round_next}
use client_rust.Protocol.Wire.{WireValues, WireRows}
use client_rust.Protocol.Wire.At.{past, past-IsValid, past_nil}
use client_rust.Protocol.Wire.Codes.{push_all-nil, count-push}
use client_rust.Protocol.Wire.Sound.{Sent, Sent-bind, Sent-behind}
use client_rust.Protocol.Wire.Sound.Codes.{StreamSent}
use client_rust.Protocol.Wire.Sound.Values.{next_value-Sent}

module _ (fp : FloatParse) where
  stream_loop-Sent : (f : ℕ) → StreamSent fp (stream_loop fp f)
  unfolding stream_loop element
  stream_loop-Sent zero n ws size d v = tt
  stream_loop-Sent (suc f) n ws size d v = elim (Bool-cases (count ws == size)) [
    | inl full ↦
        rw (StreamRounds.round_full fp (stream_loop fp f) n ws absent size d full)
          ([], drop d.i d.b, (v, refl), (nil, refl, WireValues.nil, ground arith), sym (past_nil d))
    | inr missing ↦ elim (dec_lt d.i (length d.b)) [
      | no past_end ↦
          rw
            (StreamRounds.round_end fp (stream_loop fp f) n ws absent size d missing
              (omega (arith, v.1)))
            tt
      | yes inside ↦
          rw (StreamRounds.round_next fp (stream_loop fp f) n ws absent size d missing inside) (
            Sent-bind _ _ d _ _
              (next_value-Sent fp (stream_loop fp f) (stream_loop-Sent f) d v inside)
              (λ x s rest at w.
                Sent-behind _ _ d s rest _ at
                  (λ vs t (us, same, wire, all).
                    (cons x us, same, WireValues.cons w wire, omega (arith, all, count-push ws x)))
                  (stream_loop-Sent f n (push ws x) size (past d s) (past-IsValid d s rest at)))
              (λ p d'. tt))
    ]
  ]

  pub complete_items-Sent : StreamSent fp (complete_items fp)
  unfolding complete_items
  complete_items-Sent n ws size d v = stream_loop-Sent _ n ws size d v

  module _ (c size : ℕ) where
    pub multi_loop-Sent :
        (f : ℕ) (vss : List Values) (d : Decoder)
        → IsValid d
        → Sent
            (λ self t.
              (rs : List Row) × (self.items ≡ vss ++ map (λ r. r.values) rs)
              × WireRows fp size rs t
              × (length vss + length rs ≡ c))
            d
            (multi_loop fp f c size (sized c size vss none) d)
    unfolding initialize_stream
    multi_loop-Sent zero vss d v = unfold multi_loop in tt
    multi_loop-Sent (suc f) vss d v = elim (Bool-cases (length vss == c)) [
      | inl full ↦ rw (round_full fp c size f vss none d full) (
        [],
        drop d.i d.b,
        (v, refl),
        ([], sym (append-nil vss), WireRows.nil, ground arith),
        sym (past_nil d),
      )
      | inr missing ↦ rw (round_next fp c size f vss none d missing) (
          Sent-bind _ _ d _ _ (complete_items-Sent (pending_size d) nil size d v)
            (λ vs s rest at (us, same, wire, all).
              let these : items vs ≡ us = same ∙ push_all-nil us in
              let row_size : count us ≡ size = omega (arith, all) in
              Sent-behind _ _ d s rest _ at
                (λ self t (rs, same_rows, rows, total). (
                  record { values = us } ∷ rs,
                  same_rows
                      ∙ append_assoc vss (items vs ∷ []) (map (λ r. r.values) rs)
                      ∙ ap (λ z. vss ++ z ∷ map (λ r. r.values) rs) these,
                  WireRows.cons row_size wire rows,
                  omega (arith, total, length_push vss (items vs)),
                ))
                (multi_loop-Sent f (vss ++ items vs ∷ []) (past d s) (past-IsValid d s rest at)))
            (λ p d'. tt))
    ]
