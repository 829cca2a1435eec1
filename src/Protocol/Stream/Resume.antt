-- ===== src/Protocol/Stream/Resume.antt =====
-- The loop of `ValueStream::_complete` of src/protocol/mod.rs on a buffer that is extended.
use client_rust.Prelude.{
  ℕ, zero, suc, ◌+◌, ◌≤◌, ◌<◌, ◌≡◌, refl, ◌∙◌, Bytes, true, false, ◌==◌, length, some, get_elem?,
  get_elem?_total, get_elem?-append, length-append, arith, inl, inr, Bool-cases, dec_lt,
}
use native.Mathlib.Nat.{le_trans}
use client_rust.Std.{FloatParse}
use client_rust.Response.{Values, count, push}
use client_rust.Protocol.Outcome.{Decoder, Outcome, done, bind}
use client_rust.Protocol.Cursor.{decoder}
use client_rust.Protocol.Cursor.Laws.{next_lem, eof_lem}
use client_rust.Protocol.Extend.{extend, IsValid, Follows, Advances-refl, Follows-from}
use client_rust.Protocol.Extend.Follow.{Follows-bind, Follows-run, Advances-IsValid}
use client_rust.Protocol.State.{completed, pending}
use client_rust.Protocol.Sp.{SizeState}
use client_rust.Protocol.Value.{
  PendingValue, MaybePending, ValueState, value_stream, absent, present, StreamLoop,
  try_complete_self, next_value_with_code, next_value,
}
use client_rust.Protocol.Value.Depth.{depth_maybe}
use client_rust.Protocol.Value.Dispatch.{try_complete_self-Follows, next_value_with_code-Follows}
use client_rust.Protocol.Value.Ready.{PendingReady, MaybeReady, CountReady}
use client_rust.Protocol.Value.Resume.{StreamFollows, IsDown, left, left-Advances}
use client_rust.Protocol.Stream.{element, with_element, stream_round, stream_loop}
use client_rust.Protocol.Stream.Fuel.{stream_loop-Less}

down_fuel : (X : Type 0) (f : ℕ) → IsDown (λ m. f ≤ m → X)
down_fuel X f m n h g k = g (le_trans k h)

module _ (fp : FloatParse) (stream : StreamLoop) where
  pub round_full :
      (n : SizeState) (ws : Values) (p : MaybePending) (size : ℕ) (d : Decoder)
      → (count ws == size) ≡ true
      → stream_round fp stream (value_stream n ws p) size d
        ≡ done (completed (value_stream n ws p)) d
  unfolding stream_round
  round_full n ws p size d h = ground arith

  pub round_end :
      (n : SizeState) (ws : Values) (p : MaybePending) (size : ℕ) (d : Decoder)
      → (count ws == size) ≡ false
      → d.i ≡ length d.b
      → stream_round fp stream (value_stream n ws p) size d ≡ done (pending (value_stream n ws p)) d
  unfolding stream_round
  round_end n ws p size d h e =
      let at_end : (d.i == length d.b) ≡ true = ground arith in
      rw (h, stream_round) (rw (eof_lem d (omega arith), at_end))

  pub round_next :
      (n : SizeState) (ws : Values) (p : MaybePending) (size : ℕ) (d : Decoder)
      → (count ws == size) ≡ false
      → d.i < length d.b
      → stream_round fp stream (value_stream n ws p) size d
        ≡ bind (element fp stream p d) (with_element fp stream (value_stream n ws p) size)
  unfolding stream_round
  round_next n ws p size d h e =
      let more_left : (d.i == length d.b) ≡ false = ground arith in
      rw (h, stream_round) (rw (eof_lem d (omega arith), more_left))

  next_value_lem :
      (d : Decoder) (x : ℕ)
      → get_elem? d.b d.i ≡ some x
      → element fp stream absent d ≡ next_value_with_code fp stream x (decoder d.b (d.i + 1))
  unfolding element next_value
  next_value_lem d x e = rw (next_lem d x e)

module _ (X : Type 0) (f : ℕ) (fp : FloatParse) (more : Bytes) (some_more : 0 < length more)
    (local : StreamFollows X (λ m. f ≤ m → X) more (stream_loop fp f)) where
  abbrev loop : StreamLoop
  loop = stream_loop fp f

  same_element :
      (n : SizeState) (ws : Values) (p q : MaybePending) (size : ℕ) (s : ValueState) (d : Decoder)
      → with_element fp loop (value_stream n ws p) size s d
        ≡ with_element fp loop (value_stream n ws q) size s d
  same_element n ws p q size (completed w) d = refl
  same_element n ws p q size (pending pv) d = refl

  -- A pending element goes on in the next call of the loop.
  resume_element :
      (n : SizeState) (ws : Values) (p : MaybePending) (size : ℕ) (pv : PendingValue) (d : Decoder)
      → (count ws == size) ≡ false
      → d.i ≤ length d.b
      → bind
          (try_complete_self fp loop pv (extend d more))
          (with_element fp loop (value_stream n ws p) size)
        ≡ stream_loop fp (suc f) (value_stream n ws (present pv)) size (extend d more)
  unfolding stream_loop element
  resume_element n ws p size pv d room h =
      rw
        (round_next fp loop n ws (present pv) size (extend d more) room
          (omega (arith, length-append d.b more)))
        (λ i.
          bind (try_complete_self fp loop pv (extend d more))
            (λ s d'. same_element n ws p (present pv) size s d' i))

  -- What follows an element, from where its outcome is known.
  after_element :
      (n : SizeState) (ws : Values) (p : MaybePending) (size : ℕ) (d : Decoder)
      (whole out : Outcome ValueState)
      → IsValid d
      → (count ws == size) ≡ false
      → (f ≤ left d → X)
      → Follows X PendingReady (try_complete_self fp loop) more d whole out
      → Follows X
          (CountReady n)
          (λ vs. stream_loop fp (suc f) vs size)
          more
          d
          (bind whole (with_element fp loop (value_stream n ws p) size))
          (bind out (with_element fp loop (value_stream n ws p) size))
  after_element n ws p size d whole out v room x =
      Follows-bind X PendingReady (try_complete_self fp loop) (CountReady n)
        (λ vs. stream_loop fp (suc f) vs size) more
        (with_element fp loop (value_stream n ws p) size) d whole out
        (λ w d' a.
          Follows-run X (CountReady n) (CountReady n) (λ vs. loop vs size)
            (λ vs. stream_loop fp (suc f) vs size) more d'
            (loop (value_stream n (push ws w) absent) size (extend d' more))
            (loop (value_stream n (push ws w) absent) size d') (λ pv i q. q)
            (λ pv d'' b q. stream_loop-Less fp f pv size (extend d'' more))
            (local n size (value_stream n (push ws w) absent) d' (Advances-IsValid v a) (tt, refl)
              (λ k. x (omega (arith, left-Advances d d' a)))))
        (λ pv d' a q. (
          Advances-refl d' (Advances-IsValid v a).1,
          (q, refl),
          inr (resume_element n ws p size pv d' room (Advances-IsValid v a).1),
        ))

  element-Follows :
      (n : SizeState) (ws : Values) (p : MaybePending) (size : ℕ) (d : Decoder)
      → IsValid d
      → d.i < length d.b
      → MaybeReady p d.i
      → (count ws == size) ≡ false
      → (suc f ≤ left d + depth_maybe p → X)
      → Follows X
          (CountReady n)
          (λ vs. stream_loop fp (suc f) vs size)
          more
          d
          (bind
            (element fp loop p (extend d more))
            (with_element fp loop (value_stream n ws p) size))
          (bind (element fp loop p d) (with_element fp loop (value_stream n ws p) size))
  element-Follows n ws absent size d v h r room x =
      let (c, found) = get_elem?_total d.i d.b h in
      let d₁ : Decoder = decoder d.b (d.i + 1) in
      rw
        (
          next_value_lem fp loop d c found,
          next_value_lem fp loop (extend d more) c (get_elem?-append d.i d.b more h ∙ found),
        )
        (Follows-from X (CountReady n) (λ vs. stream_loop fp (suc f) vs size) more d d₁ _ _
          (refl, omega arith, omega arith)
          (after_element n ws absent size d₁ (next_value_with_code fp loop c (extend d₁ more))
            (next_value_with_code fp loop c d₁) (v.0, omega arith) room (λ k. x (omega arith))
            (next_value_with_code-Follows X (λ m. f ≤ m → X) (down_fuel X f) fp loop more local c d₁
              (v.0, omega arith) (λ k. x (omega arith)))))
  element-Follows n ws (present w) size d v h r room x =
      unfold element in
      after_element n ws (present w) size d (try_complete_self fp loop w (extend d more))
        (try_complete_self fp loop w d) v room (λ k. x (omega arith))
        (try_complete_self-Follows X (λ m. f ≤ m → X) (down_fuel X f) fp loop more local w d v r
          (λ k. x (omega arith)))

  round-Follows : StreamFollows X (λ m. suc f ≤ m → X) more (stream_loop fp (suc f))
  unfolding stream_loop
  round-Follows n size (value_stream m ws p) d v (r, e) x = elim (Bool-cases (count ws == size)) [
    | inl full ↦
        rw
          (
            round_full fp loop m ws p size d full,
            round_full fp loop m ws p size (extend d more) full,
          )
          (Advances-refl d v.1, inr refl)
    | inr room ↦ elim (dec_lt d.i (length d.b)) [
      | no at_end ↦
          rw (round_end fp loop m ws p size d room (omega arith))
            (Advances-refl d v.1, (r, e), inr refl)
      | yes within ↦
          rw
            (
              round_next fp loop m ws p size d room within,
              round_next fp loop m ws p size (extend d more) room
                  (omega (arith, length-append d.b more)),
            )
            (rw e (element-Follows n ws p size d v within r room x))
    ]
  ]

-- With any fuel: a result, an error or a pending stream is what the whole buffer goes on from, and the
-- fuel runs out only if no more of it was given than bytes and levels are ahead.
pub stream_loop-Follows :
    (X : Type 0) (fp : FloatParse) (more : Bytes) (f : ℕ)
    → 0 < length more
    → StreamFollows X (λ m. f ≤ m → X) more (stream_loop fp f)
stream_loop-Follows X fp more zero some_more n size vs d v r x =
    unfold stream_loop in x (omega arith)
stream_loop-Follows X fp more (suc f) some_more n size vs d v r x =
    round-Follows X f fp more some_more (stream_loop-Follows X fp more f some_more) n size vs d v r
      x
