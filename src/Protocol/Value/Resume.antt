-- ===== src/Protocol/Value/Resume.antt =====
-- `PendingValue` and `ValueStream` of src/protocol/mod.rs on a buffer that is extended, over any `_complete`.
use client_rust.Prelude.{
  ℕ, ◌+◌, ◌≤◌, ◌<◌, ◌≡◌, refl, sym, ap, ◌-◌, Bytes, false, length, arith, ltb, ◌==◌, inl, inr,
  get_elem?, some, get_elem?_total, get_elem?-append, length-append, Bool-cases, if◌then◌else◌,
  dec_lt, ◌∙◌,
}
use client_rust.Error.{invalid_server_response_for_data}
use client_rust.Std.{FloatParse}
use client_rust.Response.{Value, Values}
use client_rust.Protocol.Outcome.{Decoder, done, fail, Method, bind}
use client_rust.Protocol.Cursor.{decoder}
use client_rust.Protocol.Cursor.Laws.{next_lem, eof_lem}
use client_rust.Protocol.Extend.{extend, IsValid, Advances, Follows, Advances-refl, Follows-from}
use client_rust.Protocol.Extend.Follow.{Follows-bind, Follows-run, Advances-IsValid}
use client_rust.Protocol.State.{completed, pending, try_complete}
use client_rust.Protocol.Lfs.{LfsValue}
use client_rust.Protocol.Lfs.Objects.{AlwaysReady}
use client_rust.Protocol.Sp.{SizeState, complete_size}
use client_rust.Protocol.Sp.Resume.{resume_size, complete_size-Follows}
use client_rust.Protocol.Value.{
  ValueStream, MaybePending, ValueState, value_stream, bool, StreamLoop, decode_bool, with_count,
  complete_stream, try_complete_self,
}
use client_rust.Protocol.Value.Depth.{depth_stream, depth_maybe}
use client_rust.Protocol.Value.Ready.{
  PendingReady, StreamReady, MaybeReady, MaybeReady-later, element_count, CountReady,
}

-- How many bytes are left.
abbrev pub left : Decoder → ℕ
left d = length d.b - d.i

pub left-Advances : (d d' : Decoder) → Advances d d' → left d' ≤ left d
left-Advances d d' (e, m, l) = omega (arith, ap length e)

-- A condition on the bytes and levels ahead that holds of fewer if it holds of more.
abbrev pub IsDown : (ℕ → Type 0) → Type 0
IsDown G = (m n : ℕ) → m ≤ n → G n → G m

-- What is needed of the loop of `ValueStream::_complete`, where `G` holds of the bytes and levels that
-- are ahead.
abbrev pub StreamFollows : Type 0 → (ℕ → Type 0) → Bytes → StreamLoop → Type 0
StreamFollows X G more stream =
    (n : SizeState) (size : ℕ) (vs : ValueStream) (d : Decoder)
    → IsValid d
    → CountReady n vs d.i
    → G (left d + depth_stream vs)
    → Follows X (CountReady n) (λ ws. stream ws size) more d (stream vs size (extend d more))
        (stream vs size d)

module _ (X : Type 0) (G : ℕ → Type 0) (down : IsDown G) (fp : FloatParse) (stream : StreamLoop)
    (more : Bytes) (local : StreamFollows X G more stream) where
  -- A method whose pending result goes on by `try_complete_self`.
  abbrev pub Resumes : Method ValueState → Type 0
  Resumes m =
      (d : Decoder)
      → IsValid d
      → G (left d)
      → Follows X PendingReady (try_complete_self fp stream) more d (m (extend d more)) (m d)

  decode_bool_end : (d : Decoder) → d.i ≡ length d.b → decode_bool d ≡ done (pending (bool false)) d
  unfolding decode_bool
  decode_bool_end d h = rw (eof_lem d (omega arith)) (ground arith)

  abbrev bool_of : ℕ → Method ValueState
  bool_of v d =
      if ltb 1 v
      then fail invalid_server_response_for_data d
      else done (completed (Value.bool (v == 1))) d

  decode_bool_byte :
      (d : Decoder) (x : ℕ)
      → d.i < length d.b
      → get_elem? d.b d.i ≡ some x
      → decode_bool d ≡ bool_of x (decoder d.b (d.i + 1))
  unfolding decode_bool
  decode_bool_byte d x h e =
      let more_left : (d.i == length d.b) ≡ false = ground arith in
      rw (eof_lem d (omega arith), more_left, next_lem d x e)

  bool_of-Follows :
      (v : ℕ) (d : Decoder)
      → d.i ≤ length d.b
      → Follows X PendingReady
          (try_complete_self fp stream)
          more
          d
          (bool_of v (extend d more))
          (bool_of v d)
  bool_of-Follows v d h = elim (Bool-cases (ltb 1 v)) [
    | inl other ↦ rw other (inr refl)
    | inr zero_or_one ↦ rw zero_or_one (Advances-refl d h, inr refl)
  ]

  pub decode_bool-Resumes : Resumes decode_bool
  decode_bool-Resumes d v _ = elim (dec_lt d.i (length d.b)) [
    | no at_end ↦
        rw (decode_bool_end d (omega arith))
          (Advances-refl d v.1, tt, inr (unfold try_complete_self in refl))
    | yes within ↦
        let (x, found) = get_elem?_total d.i d.b within in
        rw
          (
            decode_bool_byte d x within found,
            decode_bool_byte (extend d more) x (omega (arith, length-append d.b more))
                (get_elem?-append d.i d.b more within ∙ found),
          )
          (Follows-from X PendingReady (try_complete_self fp stream) more d (decoder d.b (d.i + 1))
            _ _ (refl, omega arith, omega arith)
            (bool_of-Follows x (decoder d.b (d.i + 1)) (omega arith)))
  ]

  count_known :
      (c : ℕ) (ws : Values) (p : MaybePending) (d : Decoder)
      → complete_stream stream (value_stream (completed c) ws p) d
        ≡ stream (value_stream (completed c) ws p) c d
  unfolding complete_stream complete_size try_complete
  count_known c ws p d = refl

  same_count :
      (c : ℕ) (vs : ValueStream) (d : Decoder)
      → element_count vs ≡ completed c
      → stream vs c d ≡ complete_stream stream vs d
  same_count c (value_stream n ws p) d e = rw e (sym (count_known c ws p d))

  count_pending :
      (n : SizeState) (ws : Values) (p : MaybePending) (pv : LfsValue ℕ (Unit {0})) (d : Decoder)
      → bind (resume_size pv d) (with_count stream (value_stream n ws p))
        ≡ complete_stream stream (value_stream (pending pv) ws p) d
  unfolding complete_stream
  count_pending n ws p pv d = λ i. bind (resume_size pv d) (λ s d'. same s d' i)
    where
      same :
          (s : SizeState) (d' : Decoder)
          → with_count stream (value_stream n ws p) s d'
            ≡ with_count stream (value_stream (pending pv) ws p) s d'
      same (completed c) d' = refl
      same (pending qv) d' = refl

  stream_at_count :
      (c : ℕ) (ws : Values) (p : MaybePending) (d : Decoder)
      → IsValid d
      → MaybeReady p d.i
      → G (left d + depth_maybe p)
      → let vs = value_stream (completed c) ws p in
        Follows X StreamReady
          (complete_stream stream)
          more
          d
          (stream vs c (extend d more))
          (stream vs c d)
  stream_at_count c ws p d v r x =
      let vs = value_stream (completed c) ws p in
      Follows-run X (CountReady (completed c)) StreamReady (λ ws'. stream ws' c)
        (complete_stream stream) more d (stream vs c (extend d more)) (stream vs c d)
        (λ pv i q. q.0) (λ pv d' a q. inr (same_count c pv (extend d' more) q.1))
        (local (completed c) c vs d v (r, refl) x)

  pub complete_stream-Follows :
      (vs : ValueStream) (d : Decoder)
      → IsValid d
      → StreamReady vs d.i
      → G (left d + depth_stream vs)
      → Follows X StreamReady
          (complete_stream stream)
          more
          d
          (complete_stream stream vs (extend d more))
          (complete_stream stream vs d)
  unfolding complete_stream
  complete_stream-Follows (value_stream n ws p) d v r x =
      Follows-bind X AlwaysReady resume_size StreamReady (complete_stream stream) more
        (with_count stream (value_stream n ws p)) d (complete_size n (extend d more))
        (complete_size n d)
        (λ c d' a.
          stream_at_count c ws p d' (Advances-IsValid v a) (MaybeReady-later p d.i d'.i a.1 r)
            (down _ _ (omega (arith, left-Advances d d' a)) x))
        (λ pv d' a _. (
          Advances-refl d' (Advances-IsValid v a).1,
          MaybeReady-later p d.i d'.i a.1 r,
          inr (count_pending n ws p pv (extend d' more)),
        ))
        (complete_size-Follows X more n d v)
