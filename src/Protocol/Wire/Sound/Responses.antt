-- ===== src/Protocol/Wire/Sound/Responses.antt =====
-- The responses that `validate_response` of src/protocol/mod.rs has read.
use client_rust.Prelude.{
  ℕ, suc, ◌+◌, ◌-◌, ◌<◌, ◌≡◌, refl, sym, ap, ◌∙◌, List, Bytes, [], ◌∷◌, ◌++◌, map, length, drop,
  arith, lf, ◌==◌, dec_lt, get_elem?-drop, subst,
}
use client_rust.Std.{FloatParse}
use client_rust.Response.{Row, row, rows}
use client_rust.Protocol.Outcome.{Decoder, Outcome, done, bind}
use client_rust.Protocol.Cursor.{decoder}
use client_rust.Protocol.Cursor.Laws.{next_lem}
use client_rust.Protocol.Extend.{IsValid}
use client_rust.Protocol.State.{completed}
use client_rust.Protocol.Sp.{complete_size, pending_size}
use client_rust.Protocol.Value.{items, initialize_stream}
use client_rust.Protocol.Stream
use client_rust.Protocol.Stream.{complete_items}
use client_rust.Protocol.Multi
use client_rust.Protocol.Multi.{MultiValueStream}
use client_rust.Protocol.Validate.{
  initial, value_response, DecodeState, complete_error, complete_row, complete_rows, begin_response,
  validate,
}
use client_rust.Protocol.Validate.Resume.{complete_error_short, complete_error_full}
use client_rust.Protocol.Wire.{WireResponse, WireRows, Digits}
use client_rust.Protocol.Wire.At.{past, past-IsValid, past_nil, At-behind}
use client_rust.Protocol.Wire.Responses.{map-values}
use client_rust.Protocol.Wire.Sound.{Sent, Sent-bind, Sent-behind, Sent-if}
use client_rust.Protocol.Wire.Sound.Lines.{complete_size-Sent}
use client_rust.Protocol.Wire.Sound.Codes.{complete_stream-Sent, next_byte}
use client_rust.Protocol.Wire.Sound.Values.{same_code, next_value_with_code-Sent}
use client_rust.Protocol.Wire.Sound.Items.{complete_items-Sent, multi_loop-Sent}

module _ (fp : FloatParse) where
  -- The response of a code, from the bytes behind the code.
  abbrev Begun : ℕ → Decoder → Outcome DecodeState → Type 0
  Begun c d out = Sent (λ r t. WireResponse fp r (c ∷ t)) d out

  error-Begun : (d : Decoder) → IsValid d → Begun 0x10 d (complete_error d)
  error-Begun d v = elim (dec_lt (length d.b) (d.i + 2)) [
    | yes short ↦ rw (complete_error_short d v.1 short) tt
    | no long ↦
        let (lo, rest, e) = next_byte d (omega arith) in
        let behind = At-behind d lo [] rest (v, e) in
        let (hi, rest', e') = next_byte (past d (lo ∷ [])) (omega arith) in
        let here : decoder d.b (d.i + 1 + 1) ≡ past d (lo ∷ hi ∷ []) =
          ap (decoder d.b) (omega arith) in
        rw
          (complete_error_full d lo hi (omega arith) (get_elem?-drop d.i d.b e)
            (get_elem?-drop (d.i + 1) d.b e'))
          (
            lo ∷ hi ∷ [],
            rest',
            (v, e ∙ ap (λ z. lo ∷ z) (sym behind.1 ∙ e')),
            WireResponse.error lo hi,
            here,
          )
  ]

  row-Begun : (d : Decoder) → IsValid d → Begun 0x11 d (complete_row fp (initialize_stream d) d)
  unfolding complete_row Stream.complete
  row-Begun d v =
      Sent-bind _ _ d _ _ (complete_stream-Sent fp (complete_items fp) (complete_items-Sent fp) d v)
        (λ vs t rest at (s, u, e, digits, wire). (
          t,
          rest,
          at,
          subst (λ z. WireResponse fp (row (record { values = items vs })) (0x11 ∷ z)) (sym e)
              (WireResponse.row s digits wire),
          refl,
        ))
        (λ p d'. tt)

  -- The rows behind their number `c`: their size, and the rows.
  abbrev SizedRows : ℕ → MultiValueStream → Bytes → Type 0
  SizedRows c self t =
      (rs : List Row) × (size : ℕ) × (s : Bytes) × (u : Bytes) × (self.items
        ≡ map (λ r. r.values) rs)
      × (t ≡ (s ++ lf ∷ []) ++ u)
      × Digits 64 s size
      × WireRows fp size rs u
      × (length rs ≡ c)

  -- All the rows.
  abbrev AllRows : MultiValueStream → Bytes → Type 0
  AllRows self t =
      (rs : List Row) × (self.items ≡ map (λ r. r.values) rs) × WireResponse fp (rows rs) (0x13 ∷ t)

  size-Sent :
      (c : ℕ) (d d₀ : Decoder)
      → IsValid d
      → Sent (SizedRows c) d (
          bind (complete_size (pending_size d₀) d) (
            Multi.with_stream_size fp
              (record (Multi.initialize d₀) { stream_count = completed c })
              c))
  unfolding Multi.initialize
  size-Sent c d d₀ v =
      Sent-bind _ _ d _ _ (complete_size-Sent d d₀ v)
        (λ size t rest at (s, e, digits).
          Sent-behind _ _ d t rest _ at
            (λ self u (rs, same, wire, total).
              (rs, size, s, u, same, ap (λ z. z ++ u) e, digits, wire, omega (arith, total)))
            (multi_loop-Sent fp c size (suc (c - 0)) [] (past d t) (past-IsValid d t rest at)))
        (λ p d'. tt)

  count-Sent : (d : Decoder) → IsValid d → Sent AllRows d (Multi.complete fp (Multi.initialize d) d)
  unfolding Multi.complete Multi.initialize
  count-Sent d v =
      Sent-bind _ _ d _ _ (complete_size-Sent d d v)
        (λ c t rest at (s₀, e, count_digits).
          Sent-behind _ _ d t rest _ at
            (λ self u (rs, size, s₁, w, same, e₁, size_digits, wire, total). (
              rs,
              same,
              subst (λ z. WireResponse fp (rows rs) (0x13 ∷ z))
                  (sym (ap (λ z. z ++ u) e ∙ ap (λ z. (s₀ ++ lf ∷ []) ++ z) e₁))
                  (WireResponse.rows size s₀ s₁ (rw total count_digits) size_digits wire),
            ))
            (size-Sent c (past d t) d (past-IsValid d t rest at)))
        (λ p d'. tt)

  rows-Begun : (d : Decoder) → IsValid d → Begun 0x13 d (complete_rows fp (Multi.initialize d) d)
  unfolding complete_rows
  rows-Begun d v =
      Sent-bind _ _ d _ _ (count-Sent d v)
        (λ self t rest at (rs, same, wire).
          let these : map (λ vs. record { values = vs }) self.items ≡ rs =
            ap (map (λ vs. record { values = vs })) same ∙ map-values rs in
          (t, rest, at, subst (λ z. WireResponse fp (rows z) (0x13 ∷ t)) (sym these) wire, refl))
        (λ p d'. tt)

  value-Begun :
      (c : ℕ) (d : Decoder)
      → IsValid d
      → Begun c d (bind (Stream.next_value_with_code fp c d) (λ r d₁. done (value_response r) d₁))
  unfolding Stream.next_value_with_code
  value-Begun c d v =
      Sent-bind _ _ d _ _
        (next_value_with_code-Sent fp (complete_items fp) (complete_items-Sent fp) c d v)
        (λ x t rest at w. (t, rest, at, WireResponse.value w, refl)) (λ p d'. tt)

  begin_response-Sent : (c : ℕ) (d : Decoder) → IsValid d → Begun c d (begin_response fp c d)
  unfolding begin_response
  begin_response-Sent c d v =
      Sent-if _ d (c == 0x0F) _ _ (λ e. tt)
        (Sent-if _ d (c == 0x10) _ _ (λ e. rw (same_code c 0x10 e) (error-Begun d v))
          (Sent-if _ d (c == 0x11) _ _ (λ e. rw (same_code c 0x11 e) (row-Begun d v))
            (Sent-if _ d (c == 0x12) _ _
              (λ e.
                rw (same_code c 0x12 e)
                  ([], drop d.i d.b, (v, refl), WireResponse.empty, sym (past_nil d)))
              (Sent-if _ d (c == 0x13) _ _ (λ e. rw (same_code c 0x13 e) (rows-Begun d v))
                (value-Begun c d v)))))

  -- Whatever the decoder takes for a response is one that the bytes at its position write in the wire format,
  -- and it stops right behind them: it makes no response up, and none of another type or size than was sent.
  -- It is asked that the position lies before the end of the buffer.
  pub validate-Sent :
      (d : Decoder) → d.i < length d.b → Sent (WireResponse fp) d (validate fp initial d)
  unfolding validate
  validate-Sent d inside =
      let v : IsValid d = (omega arith, omega arith) in
      let (c, rest, e) = next_byte d inside in
      rw (next_lem d c (get_elem?-drop d.i d.b e)) (
        Sent-behind _ (WireResponse fp) d (c ∷ []) rest _ (v, e) (λ r t w. w)
          (begin_response-Sent c (past d (c ∷ [])) (past-IsValid d (c ∷ []) rest (v, e))))
