-- ===== src/Protocol/Wire/Codes.antt =====
-- `PendingValue::next_value` of src/protocol/mod.rs on the bytes of a value, over any `_complete`.
use client_rust.Prelude.{
  ℕ, ◌+◌, ◌≤◌, ◌<◌, ◌≡◌, refl, sym, ap, Bool, true, false, Bytes, [], ◌∷◌, ◌++◌, length, arith, lf,
  ◌==◌, if◌then◌else◌, Option,
}
use client_rust.Std.{FloatParse, parse_signed, pos}
use client_rust.Response.{Value, Values, nil, cons, count, push}
use client_rust.Protocol.Outcome.{Decoder, done}
use client_rust.Protocol.Cursor.Laws.{eof_lem}
use client_rust.Protocol.State.{completed}
use client_rust.Protocol.Lfs
use client_rust.Protocol.Lfs.{LfsValue, unsigned, signed, parsed, float32_object, float64_object}
use client_rust.Protocol.Sp
use client_rust.Protocol.Sp.{Finish, finish_binary, finish_string}
use client_rust.Protocol.Value.{
  PendingValue, StreamLoop, value_stream, absent, complete_value, decode_bool, initialize_stream,
  complete_stream, next_value_with_code, next_value,
}
use client_rust.Protocol.Value.Resume.{left}
use client_rust.Protocol.Wire.{
  WireValue, WireValues, Digits, Line, null, bool, uint8, uint16, uint32, uint64, sint8, sint16,
  sint32, sint64, float32, float64, binary, string, list,
}
use client_rust.Protocol.Wire.At.{
  At, past, At-front, At-past, At-room, At-next, At-behind, past-past, past_nil,
}
use client_rust.Protocol.Wire.Lines.{unsigned-Digits, complete_size-Digits, parsed-Line}
use client_rust.Protocol.Wire.Blocks.{
  Accepts, finish_binary-Accepts, finish_string-Accepts, complete-block,
}

-- All values of `ws`, and then those of `vs`.
abbrev pub push_all : Values → Values → Values
push_all ws nil = ws
push_all ws (cons v vs) = push_all (push ws v) vs

push_all-cons : (w : Value) (ws vs : Values) → push_all (cons w ws) vs ≡ cons w (push_all ws vs)
push_all-cons w ws nil = refl
push_all-cons w ws (cons v vs) = push_all-cons w (push ws v) vs

pub push_all-nil : (vs : Values) → push_all nil vs ≡ vs
push_all-nil nil = refl
push_all-nil (cons v vs) = rw (push_all-cons v nil vs, push_all-nil vs)

pub count-push : (ws : Values) (v : Value) → count (push ws v) ≡ count ws + 1
count-push nil v = refl
count-push (cons w ws) v = omega (arith, count-push ws v)

-- Behind the first byte of something, less is left.
pub left-behind :
    (d : Decoder) (c : ℕ) (s rest : Bytes) → At d (c ∷ s) rest → left (past d (c ∷ s)) < left d
left-behind d c s rest at = omega (arith, At-room d (c ∷ s) rest at)

-- The loop reads the bytes of all the values that are missing, where less than `f` bytes are left.
abbrev pub Reads : FloatParse → StreamLoop → ℕ → Type 0
Reads fp stream f =
    (n : Sp.SizeState) (ws vs : Values) (t : Bytes) (size : ℕ) (d : Decoder) (rest : Bytes)
    → WireValues fp vs t
    → At d t rest
    → count ws + count vs ≡ size
    → left d < f
    → stream (value_stream n ws absent) size d
      ≡ done (completed (value_stream n (push_all ws vs) absent)) (past d t)

module _ (fp : FloatParse) (stream : StreamLoop) (f : ℕ) (reads : Reads fp stream f) where
  -- The method of a code reads `v` from `s`.
  abbrev Decodes : ℕ → Bytes → Value → Type 0
  Decodes c s v =
      (d : Decoder) (rest : Bytes)
      → At d s rest
      → left d < f
      → next_value_with_code fp stream c d ≡ done (completed v) (past d s)

  pub complete_stream-Reads :
      (vs : Values) (s t : Bytes) (d : Decoder) (rest : Bytes)
      → Digits 64 s (count vs)
      → WireValues fp vs t
      → At d ((s ++ lf ∷ []) ++ t) rest
      → left d < f
      → complete_stream stream (initialize_stream d) d
        ≡ done
            (completed (value_stream (completed (count vs)) vs absent))
            (past d ((s ++ lf ∷ []) ++ t))
  unfolding complete_stream initialize_stream
  complete_stream-Reads vs s t d rest digits wire at less =
      let at' = At-past d (s ++ lf ∷ []) t rest at in
      let room = At-room d ((s ++ lf ∷ []) ++ t) rest at in
      rw
        (complete_size-Digits (count vs) s d (t ++ rest) digits
          (At-front d (s ++ lf ∷ []) t rest at))
        (rw (
          reads (completed (count vs)) nil vs t (count vs) (past d (s ++ lf ∷ [])) rest wire at'
              (omega arith) (omega arith),
          push_all-nil vs,
          past-past d (s ++ lf ∷ []) t,
        ))

  unsigned-code :
      (w n : ℕ) (s : Bytes) (into : LfsValue ℕ (Unit {0}) → Value)
      (back : LfsValue ℕ (Unit {0}) → PendingValue)
      → Digits w s n
      → (d : Decoder) (rest : Bytes) → At d (s ++ lf ∷ []) rest
      → complete_value (Lfs.complete (unsigned w)) into back (Lfs.initialize (unsigned w) d) d
        ≡ done (completed (into (record { v = n; state = tt }))) (past d (s ++ lf ∷ []))
  unfolding complete_value
  unsigned-code w n s into back digits d rest at = rw (unsigned-Digits w n s d rest digits at)

  parsed-code :
      {A : Type 0} (default : A) (parse : Bytes → Option A) (x : A) (s : Bytes)
      (into : LfsValue A ℕ → Value) (back : LfsValue A ℕ → PendingValue)
      → Line parse s x
      → (d : Decoder) (rest : Bytes) → At d (s ++ lf ∷ []) rest
      → complete_value
          (Lfs.complete (parsed default parse))
          into
          back
          (Lfs.initialize (parsed default parse) d)
          d
        ≡ done (completed (into (record { v = x; state = d.i }))) (past d (s ++ lf ∷ []))
  unfolding complete_value
  parsed-code default parse x s into back line d rest at =
      rw (parsed-Line parse default x s d rest line at)

  block-code :
      (finish : Finish) (v s : Bytes) (into : Sp.SpObjectState → Value)
      (back : Sp.SpObjectState → PendingValue)
      → Accepts finish v
      → Digits 64 s (length v)
      → (d : Decoder) (rest : Bytes) → At d ((s ++ lf ∷ []) ++ v) rest
      → complete_value (Sp.complete finish) into back (Sp.initialize d) d
        ≡ done
            (completed (into (record { size = completed (length v); v = v })))
            (past d ((s ++ lf ∷ []) ++ v))
  unfolding complete_value
  block-code finish v s into back accepts digits d rest at =
      rw (complete-block finish v accepts s d rest digits at)

  list-code :
      (vs : Values) (s t : Bytes)
      → Digits 64 s (count vs)
      → WireValues fp vs t
      → Decodes 0x0E ((s ++ lf ∷ []) ++ t) (Value.list vs)
  unfolding next_value_with_code complete_value
  list-code vs s t digits wire d rest at less =
      rw (complete_stream-Reads vs s t d rest digits wire at less)

  decode_bool-code : (b : Bool) → Decodes 0x01 ((if b then 1 else 0) ∷ []) (Value.bool b)
  unfolding next_value_with_code decode_bool
  decode_bool-code true d rest at less =
      let room = At-room d (1 ∷ []) rest at in
      let more_left : (d.i == length d.b) ≡ false = ground arith in
      rw (eof_lem d (omega arith), more_left) (rw (At-next d 1 [] rest at))
  decode_bool-code false d rest at less =
      let room = At-room d (0 ∷ []) rest at in
      let more_left : (d.i == length d.b) ≡ false = ground arith in
      rw (eof_lem d (omega arith), more_left) (rw (At-next d 0 [] rest at))

  coded :
      (c : ℕ) (s : Bytes) (v : Value)
      → Decodes c s v
      → (d : Decoder) (rest : Bytes) → At d (c ∷ s) rest
      → left d ≤ f
      → next_value fp stream d ≡ done (completed v) (past d (c ∷ s))
  unfolding next_value
  coded c s v decodes d rest at less =
      let room = At-room d (c ∷ s) rest at in
      rw (
        At-next d c s rest at,
        decodes (past d (c ∷ [])) rest (At-behind d c s rest at) (omega arith),
        past-past d (c ∷ []) s,
      )

  -- The bytes of a value are read as the value.
  pub next_value-WireValue :
      {v : Value} {s : Bytes}
      → WireValue fp v s
      → (d : Decoder) (rest : Bytes) → At d s rest
      → left d ≤ f
      → next_value fp stream d ≡ done (completed v) (past d s)
  unfolding next_value_with_code
  next_value-WireValue null =
      coded 0x00 [] Value.null
        (λ d rest at less. ap (done (completed Value.null)) (sym (past_nil d)))
  next_value-WireValue (bool b) = coded 0x01 ((if b then 1 else 0) ∷ []) _ (decode_bool-code b)
  next_value-WireValue (uint8 n s h) =
      coded 0x02 _ _ (λ d rest at less. unsigned-code 8 n s _ _ h d rest at)
  next_value-WireValue (uint16 n s h) =
      coded 0x03 _ _ (λ d rest at less. unsigned-code 16 n s _ _ h d rest at)
  next_value-WireValue (uint32 n s h) =
      coded 0x04 _ _ (λ d rest at less. unsigned-code 32 n s _ _ h d rest at)
  next_value-WireValue (uint64 n s h) =
      coded 0x05 _ _ (λ d rest at less. unsigned-code 64 n s _ _ h d rest at)
  next_value-WireValue (sint8 z s h) =
      coded 0x06 _ _ (λ d rest at less. parsed-code (pos 0) (parse_signed 8) z s _ _ h d rest at)
  next_value-WireValue (sint16 z s h) =
      coded 0x07 _ _ (λ d rest at less. parsed-code (pos 0) (parse_signed 16) z s _ _ h d rest at)
  next_value-WireValue (sint32 z s h) =
      coded 0x08 _ _ (λ d rest at less. parsed-code (pos 0) (parse_signed 32) z s _ _ h d rest at)
  next_value-WireValue (sint64 z s h) =
      coded 0x09 _ _ (λ d rest at less. parsed-code (pos 0) (parse_signed 64) z s _ _ h d rest at)
  next_value-WireValue (float32 x s h) =
      coded 0x0A _ _ (λ d rest at less. parsed-code 0 fp.parse_f32 x s _ _ h d rest at)
  next_value-WireValue (float64 x s h) =
      coded 0x0B _ _ (λ d rest at less. parsed-code 0 fp.parse_f64 x s _ _ h d rest at)
  next_value-WireValue (binary v s h) =
      coded 0x0C _ _
        (λ d rest at less. block-code finish_binary v s _ _ (finish_binary-Accepts v) h d rest at)
  next_value-WireValue (string v s h valid) = coded 0x0D _ _ (λ d rest at less.
      block-code finish_string v s _ _ (finish_string-Accepts v valid) h d rest at)
  next_value-WireValue (list {vs} {t} s h wire) = coded 0x0E _ _ (list-code vs s t h wire)
