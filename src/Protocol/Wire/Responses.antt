-- ===== src/Protocol/Wire/Responses.antt =====
-- `validate_response` of src/protocol/mod.rs on the bytes of a response.
use client_rust.Prelude.{
  suc, ℕ, ◌+◌, ◌-◌, ◌<◌, ◌≡◌, refl, sym, ap, ◌∙◌, List, Bytes, [], ◌∷◌, ◌++◌, length, arith, lf,
  map, get_elem?-drop,
}
use client_rust.Std.{FloatParse}
use client_rust.Response.{Value, Values, count, Row, Response, value, error, row, empty, rows}
use client_rust.Protocol.Outcome.{Decoder, done, bind}
use client_rust.Protocol.Cursor.{decoder}
use client_rust.Protocol.State.{completed}
use client_rust.Protocol.Lfs
use client_rust.Protocol.Sp.{complete_size, pending_size}
use client_rust.Protocol.Value.{initialize_stream, next_value}
use client_rust.Protocol.Value.Resume.{left}
use client_rust.Protocol.Stream
use client_rust.Protocol.Stream.{complete_items}
use client_rust.Protocol.Multi
use client_rust.Protocol.Validate.{
  validate, begin_response, initial, complete_row, complete_rows, complete_error, from_le_bytes,
  value_response,
}
use client_rust.Protocol.Validate.Resume.{complete_error_full}
use client_rust.Protocol.Wire.{WireValue, WireValues, WireRows, WireResponse, Digits}
use client_rust.Protocol.Wire.At.{
  At, past, At-front, At-past, At-room, At-next, At-behind, past-past, past_nil,
}
use client_rust.Protocol.Wire.Lines.{complete_size-Digits}
use client_rust.Protocol.Wire.Codes.{complete_stream-Reads, next_value-WireValue}
use client_rust.Protocol.Wire.Items.{code-WireValue, complete_items-Reads, multi_loop-WireRows}

-- The rows as `MultiValueStream` has them and as the response has them.
pub map-values : (rs : List Row) → map (λ vs. record { values = vs }) (map (λ r. r.values) rs) ≡ rs
map-values [] = refl
map-values (r ∷ rs) = ap (λ us. r ∷ us) (map-values rs)

module _ (fp : FloatParse) where
  complete_row-WireValues :
      {vs : Values} {t : Bytes} (s : Bytes)
      → Digits 64 s (count vs)
      → WireValues fp vs t
      → (d : Decoder) (rest : Bytes) → At d ((s ++ lf ∷ []) ++ t) rest
      → complete_row fp (initialize_stream d) d
        ≡ done (completed (row (record { values = vs }))) (past d ((s ++ lf ∷ []) ++ t))
  unfolding complete_row Stream.complete
  complete_row-WireValues {vs} {t} s digits wire d rest at = rw (
      complete_stream-Reads fp (complete_items fp) (left d + 1)
        (complete_items-Reads fp (left d + 1)) vs s t d rest digits wire at (omega arith))

  complete_rows-WireRows :
      {rs : List Row} {t : Bytes} (size : ℕ) (s₀ s₁ : Bytes)
      → Digits 64 s₀ (length rs)
      → Digits 64 s₁ size
      → WireRows fp size rs t
      → (d : Decoder) (rest : Bytes) → At d ((s₀ ++ lf ∷ []) ++ ((s₁ ++ lf ∷ []) ++ t)) rest
      → complete_rows fp (Multi.initialize d) d
        ≡ done (completed (rows rs)) (past d ((s₀ ++ lf ∷ []) ++ ((s₁ ++ lf ∷ []) ++ t)))
  unfolding complete_rows Multi.complete Multi.initialize
  complete_rows-WireRows {rs} {t} size s₀ s₁ count_digits size_digits wire d rest at =
      let l₀ : Bytes = s₀ ++ lf ∷ [] in
      let l₁ : Bytes = s₁ ++ lf ∷ [] in
      let at₁ = At-past d l₀ (l₁ ++ t) rest at in
      let at₂ = At-past (past d l₀) l₁ t rest at₁ in
      let read_size : complete_size (pending_size d) (past d l₀)
          ≡ done (completed size) (past (past d l₀) l₁) =
        unfold Lfs.initialize in
        complete_size-Digits size s₁ (past d l₀) (t ++ rest) size_digits
          (At-front (past d l₀) l₁ t rest at₁) in
      rw
        (complete_size-Digits (length rs) s₀ d ((l₁ ++ t) ++ rest) count_digits
          (At-front d l₀ (l₁ ++ t) rest at))
        (rw read_size (
          rw (
            multi_loop-WireRows fp (length rs) size (suc (length rs - 0)) [] wire
                (past (past d l₀) l₁) rest at₂ (omega arith) (omega arith),
            map-values rs,
            past-past (past d l₀) l₁ t,
            past-past d l₀ (l₁ ++ t),
          )))

  complete_error-bytes :
      (lo hi : ℕ) (d : Decoder) (rest : Bytes)
      → At d (lo ∷ hi ∷ []) rest
      → complete_error d ≡ done (completed (error (from_le_bytes lo hi))) (past d (lo ∷ hi ∷ []))
  complete_error-bytes lo hi d rest at =
      let room = At-room d (lo ∷ hi ∷ []) rest at in
      let behind = At-behind d lo (hi ∷ []) rest at in
      let here : decoder d.b (d.i + 1 + 1) ≡ past d (lo ∷ hi ∷ []) =
        ap (decoder d.b) (omega arith) in
      rw (
        complete_error_full d lo hi room (get_elem?-drop d.i d.b at.1)
            (get_elem?-drop (d.i + 1) d.b behind.1),
        here,
      )

  -- The bytes behind the first one, by its code.
  begun :
      (c : ℕ) (s : Bytes) (r : Response)
      → ((d : Decoder) (rest : Bytes)
          → At d s rest
          → begin_response fp c d ≡ done (completed r) (past d s))
      → (d : Decoder) (rest : Bytes) → At d (c ∷ s) rest
      → validate fp initial d ≡ done (completed r) (past d (c ∷ s))
  unfolding validate
  begun c s r reads d rest at = rw (
    At-next d c s rest at,
    reads (past d (c ∷ [])) rest (At-behind d c s rest at),
    past-past d (c ∷ []) s,
  )

  -- The codes below 0x0F are those of values.
  begin_response-value :
      (c : ℕ) (d : Decoder)
      → c < 0x0F
      → begin_response fp c d
        ≡ bind (Stream.next_value_with_code fp c d) (λ r d₁. done (value_response r) d₁)
  unfolding begin_response
  begin_response-value c d small = ground arith

  next_value-code :
      (c : ℕ) (t : Bytes) (d : Decoder) (rest : Bytes)
      → At d (c ∷ t) rest
      → next_value fp (complete_items fp) d ≡ Stream.next_value_with_code fp c (past d (c ∷ []))
  unfolding next_value Stream.next_value_with_code
  next_value-code c t d rest at = rw (At-next d c t rest at)

  value-WireValue :
      {v : Value} {s : Bytes}
      → WireValue fp v s
      → (d : Decoder) (rest : Bytes) → At d s rest
      → validate fp initial d ≡ done (completed (value v)) (past d s)
  unfolding validate
  value-WireValue {v} {s} w d rest at =
      let (c, t, e, small) = code-WireValue fp w in
      let front : At d (c ∷ t) rest = (at.0, at.1 ∙ ap (λ u. u ++ rest) e) in
      let read : next_value fp (complete_items fp) d ≡ done (completed v) (past d s) =
        next_value-WireValue fp (complete_items fp) (left d) (complete_items-Reads fp (left d)) w d
          rest at (omega arith) in
      let coded : Stream.next_value_with_code fp c (past d (c ∷ []))
          ≡ done (completed v) (past d s) =
        rw (← next_value-code c t d rest front) read in
      rw (At-next d c t rest front, begin_response-value c (past d (c ∷ [])) small, coded)

  -- Wherever the bytes of a response stand in a buffer, the decoder reads that response and stops right behind them.
  pub validate-WireResponse :
      {r : Response} {s : Bytes}
      → WireResponse fp r s
      → (d : Decoder) (rest : Bytes) → At d s rest
      → validate fp initial d ≡ done (completed r) (past d s)
  unfolding begin_response
  validate-WireResponse (WireResponse.value w) = value-WireValue w
  validate-WireResponse (WireResponse.error lo hi) =
      begun 0x10 (lo ∷ hi ∷ []) _ (complete_error-bytes lo hi)
  validate-WireResponse (WireResponse.row s digits wire) =
      begun 0x11 _ _ (complete_row-WireValues s digits wire)
  validate-WireResponse WireResponse.empty =
      begun 0x12 [] _ (λ d rest at. ap (done (completed empty)) (sym (past_nil d)))
  validate-WireResponse (WireResponse.rows size s₀ s₁ count_digits size_digits wire) =
      begun 0x13 _ _ (complete_rows-WireRows size s₀ s₁ count_digits size_digits wire)

  -- A response begins with a code, which is not the byte that `validate_pipe` refuses.
  pub code-WireResponse :
      {r : Response} {s : Bytes}
      → WireResponse fp r s
      → (c : ℕ) × (t : Bytes) × (s ≡ c ∷ t) × (c < 0x14)
  code-WireResponse (WireResponse.value w) =
      let (c, t, e, small) = code-WireValue fp w in (c, t, e, omega arith)
  code-WireResponse (WireResponse.error lo hi) = (0x10, _, refl, omega arith)
  code-WireResponse (WireResponse.row s digits wire) = (0x11, _, refl, omega arith)
  code-WireResponse WireResponse.empty = (0x12, _, refl, omega arith)
  code-WireResponse (WireResponse.rows size s₀ s₁ count_digits size_digits wire) =
      (0x13, _, refl, omega arith)

  pub length-WireResponse : {r : Response} {s : Bytes} → WireResponse fp r s → 0 < length s
  length-WireResponse w = let (c, t, e, small) = code-WireResponse w in omega (arith, ap length e)
