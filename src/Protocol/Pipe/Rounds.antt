-- ===== src/Protocol/Pipe/Rounds.antt =====
-- The rounds of `MRespState::step` in src/protocol/pipe.rs, and the fuel that they need.
use client_rust.Prelude.{
  ℕ, zero, suc, ◌+◌, ◌≤◌, ◌<◌, ◌≡◌, refl, ap, Bytes, Bool-cases, true, false, inl, inr, Option,
  none, some, [], ◌∷◌, ◌++◌, length, drop, arith, dec_lt, All, All-drop, ◌==◌, get_elem?_total,
}
use client_rust.Std.{FloatParse}
use client_rust.Protocol.Outcome.{Decoder, Outcome, done, fail, panic, out_of_fuel, bind}
use client_rust.Protocol.Cursor.{decoder}
use client_rust.Protocol.Cursor.Laws.{eof_lem, cursor_value_lem, next_lem}
use client_rust.Protocol.Extend.{extend, IsValid, Advances, Advances-refl, Advances-trans, Follows}
use client_rust.Protocol.Extend.Follow.{Advances-IsValid}
use client_rust.Protocol.State.{completed, pending}
use client_rust.Protocol.Value.Resume.{left, left-Advances}
use client_rust.Protocol.Validate.{ResponseState, DecodeState, validate, begin_response}
use client_rust.Protocol.Validate.Resume.{InProgress, validate-Follows, begin_response-Follows}
use client_rust.Protocol.Validate.Pieces.{InProgress→CanDecode}
use client_rust.Protocol.Pipe.{
  illegal_packet_escape, MRespState, PipelineResult, take_pending, with_response, pipe_packet,
  pipe_round, pipe_loop,
}

-- The byte that `validate_pipe` refuses does not occur.
abbrev pub Plain : Bytes → Type 0
Plain = All (λ x. (x == illegal_packet_escape) ≡ false)

-- A response that is pending is in progress.
abbrev pub PipeReady : Option ResponseState → ℕ → Type 0
PipeReady none i = Unit
PipeReady (some s) i = InProgress s i

-- A pending response may end without reading a byte.
abbrev pub owed : Option ResponseState → ℕ
owed none = 0
owed (some s) = 1

pub owed_le : (p : Option ResponseState) → owed p ≤ 1
owed_le none = omega arith
owed_le (some s) = omega arith

-- The outcome of one decoding: less is left than before, or the pending response is no more.
abbrev pub Spent : ℕ → Decoder → Outcome DecodeState → Type 0
Spent n d (done (completed c) d') = Advances d d' × (left d' < left d + n)
Spent n d (done (pending s) d') = Advances d d' × (left d' < left d + n) × InProgress s d'.i
Spent n d (fail e d') = Unit
Spent n d panic = ⊥
Spent n d out_of_fuel = ⊥

Follows→Spent :
    (run : ResponseState → Decoder → Outcome DecodeState) (n : ℕ) (d d₁ : Decoder) (more : Bytes)
    (whole out : Outcome DecodeState)
    → Advances d d₁
    → left d₁ < left d + n
    → Follows ⊥ InProgress run more d₁ whole out
    → Spent n d out
Follows→Spent run n d d₁ more whole (done (completed c) d') a l (b, w) =
    (Advances-trans a b, omega (arith, left-Advances d₁ d' b))
Follows→Spent run n d d₁ more whole (done (pending s) d') a l (b, r, w) =
    (Advances-trans a b, omega (arith, left-Advances d₁ d' b), r)
Follows→Spent run n d d₁ more whole (fail e d') a l w = tt
Follows→Spent run n d d₁ more whole panic a l w = w
Follows→Spent run n d d₁ more whole out_of_fuel a l w = w

module _ (fp : FloatParse) where
  pub validate-Spent :
      (p : Option ResponseState) (d : Decoder)
      → IsValid d
      → PipeReady p d.i
      → d.i < length d.b
      → Spent (owed p) d (validate fp (take_pending p) d)
  unfolding validate
  validate-Spent none d v r h =
      let (c, found) = get_elem?_total d.i d.b h in
      let d₁ : Decoder = decoder d.b (d.i + 1) in
      rw (next_lem d c found) (
        Follows→Spent (validate fp) 0 d d₁ (0 ∷ []) (begin_response fp c (extend d₁ (0 ∷ [])))
          (begin_response fp c d₁) (refl, omega arith, omega arith) (omega arith)
          (begin_response-Follows fp (0 ∷ []) (omega arith) c d₁ (v.0, omega arith)))
  validate-Spent (some s) d v r h =
      Follows→Spent (validate fp) 1 d d (0 ∷ []) (validate fp s (extend d (0 ∷ [])))
        (validate fp s d) (Advances-refl d v.1) (omega arith)
        (validate-Follows fp (0 ∷ []) (omega arith) s d v (InProgress→CanDecode s d r))

  module _ (expected f : ℕ) where
    pub round_end :
        (self : MRespState) (d : Decoder)
        → d.i ≡ length d.b
        → pipe_loop fp (suc f) expected self d ≡ done (pending self) d
    unfolding pipe_loop pipe_round
    round_end self d e =
        let at_end : (d.i == length d.b) ≡ true = ground arith in
        rw (eof_lem d (omega arith), at_end)

    pub round_next :
        (self : MRespState) (d : Decoder) {x : ℕ} {r : Bytes}
        → d.i < length d.b
        → drop d.i d.b ≡ x ∷ r
        → (x == illegal_packet_escape) ≡ false
        → pipe_loop fp (suc f) expected self d
          ≡ bind
              (validate fp (take_pending self.pending) d)
              (with_response fp (pipe_loop fp f expected) expected self)
    unfolding pipe_loop pipe_round pipe_packet
    round_next self d h e plain =
        let more_left : (d.i == length d.b) ≡ false = ground arith in
        rw (eof_lem d (omega arith), more_left)
          (rw (cursor_value_lem d (omega arith) e) (rw (bind, plain)))

  -- What follows a decoding depends only on the rounds from where it can leave off.
  pub with_response-congr :
      (k k' : MRespState → Decoder → Outcome PipelineResult) (expected n : ℕ) (self : MRespState)
      (p : Option ResponseState) (d : Decoder) (out : Outcome DecodeState)
      → Spent n d out
      → ((self' : MRespState) (d' : Decoder)
          → self'.pending ≡ none
          → Advances d d'
          → left d' < left d + n
          → k self' d' ≡ k' self' d')
      → bind out (with_response fp k expected self)
        ≡ bind out (with_response fp k' expected (record self { pending = p }))
  with_response-congr k k' expected n self p d (done (completed c) d') (a, l) h =
      elim (Bool-cases (length (self.processed ++ c ∷ []) == expected)) [
        | inl all ↦ rw (bind, with_response, all)
        | inr more ↦ rw (bind, with_response, more) (h _ d' refl a l)
      ]
  with_response-congr k k' expected n self p d (done (pending s) d') w h = refl
  with_response-congr k k' expected n self p d (fail e d') w h = refl
  with_response-congr k k' expected n self p d panic w h = refl
  with_response-congr k k' expected n self p d out_of_fuel w h = refl

  -- Any two amounts of fuel that are enough agree.
  pub pipe_loop-fuel :
      (expected f g : ℕ) (self : MRespState) (d : Decoder)
      → IsValid d
      → PipeReady self.pending d.i
      → Plain d.b
      → left d + owed self.pending < f
      → left d + owed self.pending < g
      → pipe_loop fp f expected self d ≡ pipe_loop fp g expected self d
  pipe_loop-fuel expected zero g self d v r plain h k = absurd (omega arith)
  pipe_loop-fuel expected (suc f) zero self d v r plain h k = absurd (omega arith)
  pipe_loop-fuel expected (suc f) (suc g) self d v r plain h k = elim (dec_lt d.i (length d.b)) [
    | yes inside ↦
        let (x, rest, e, other) = All-drop _ d.i d.b plain inside in
        rw
          (round_next expected f self d inside e other, round_next expected g self d inside e other)
          (with_response-congr (pipe_loop fp f expected) (pipe_loop fp g expected) expected
            (owed self.pending) self self.pending d (validate fp (take_pending self.pending) d)
            (validate-Spent self.pending d v r inside)
            (λ self' d' no_pending a l.
              let none_owed : owed self'.pending ≡ 0 = ap owed no_pending in
              pipe_loop-fuel expected f g self' d' (Advances-IsValid v a) (rw no_pending tt)
                (rw a.0 plain) (omega arith) (omega arith)))
    | no past_end ↦
        let at_end : d.i ≡ length d.b = omega (arith, v.1) in
        rw (round_end expected f self d at_end, round_end expected g self d at_end)
  ]
