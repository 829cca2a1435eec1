-- ===== src/Protocol/Pipe/Resume.antt =====
-- `validate_pipe` of src/protocol/pipe.rs for a caller that receives the responses in pieces.
use client_rust.Prelude.{
  ℕ, zero, suc, ◌+◌, ◌<◌, ◌≡◌, refl, ap, Bytes, Bool-cases, inl, inr, Option, none, some, [], ◌∷◌,
  ◌++◌, length, arith, dec_lt, All-drop, All-append, length-append, ◌==◌,
}
use client_rust.Std.{FloatParse}
use client_rust.Protocol.Outcome.{Decoder, Outcome, done, fail, panic, out_of_fuel, bind}
use client_rust.Protocol.Extend.{
  extend, IsValid, Advances, Advances-refl, Advances-trans, extend-IsValid,
}
use client_rust.Protocol.Extend.Follow.{Advances-IsValid}
use client_rust.Protocol.State.{completed, pending}
use client_rust.Protocol.Value.Resume.{left}
use client_rust.Protocol.Validate.{ResponseState, DecodeState, validate}
use client_rust.Protocol.Validate.Resume.{InProgress, CanDecode}
use client_rust.Protocol.Validate.Pieces.{Continues, validate_resume, InProgress→CanDecode}
use client_rust.Protocol.Pipe.{
  MRespState, PipelineResult, take_pending, with_response, pipe_loop, validate_pipe,
}
use client_rust.Protocol.Pipe.Rounds.{
  Plain, PipeReady, owed, owed_le, Spent, validate-Spent, round_end, round_next,
  with_response-congr, pipe_loop-fuel,
}

module _ (fp : FloatParse) (expected : ℕ) (more : Bytes) where
  -- `out` is the outcome at `d` and `whole` the outcome with `more` behind the buffer, as for one response:
  -- responses or an error are kept, and what is pending goes on to `whole`.
  abbrev pub PipeContinues : Decoder → Outcome PipelineResult → Outcome PipelineResult → Type 0
  PipeContinues d whole (done (completed rs) d') =
      Advances d d' × (whole ≡ done (completed rs) (extend d' more))
  PipeContinues d whole (done (pending self) d') =
      Advances d d'
      × PipeReady self.pending d'.i
      × (whole ≡ validate_pipe fp expected self (extend d' more))
  PipeContinues d whole (fail e d') = whole ≡ fail e (extend d' more)
  PipeContinues d whole panic = ⊥
  PipeContinues d whole out_of_fuel = ⊥

  PipeContinues-from :
      (d d' : Decoder) (whole out : Outcome PipelineResult)
      → Advances d d'
      → PipeContinues d' whole out
      → PipeContinues d whole out
  PipeContinues-from d d' whole (done (completed rs) d'') a (b, w) = (Advances-trans a b, w)
  PipeContinues-from d d' whole (done (pending self) d'') a (b, r, w) = (Advances-trans a b, r, w)
  PipeContinues-from d d' whole (fail e d'') a w = w
  PipeContinues-from d d' whole panic a w = w
  PipeContinues-from d d' whole out_of_fuel a w = w

  PipeReady-CanDecode :
      (p : Option ResponseState) (d : Decoder)
      → PipeReady p d.i
      → d.i < length d.b
      → CanDecode (take_pending p) d
  PipeReady-CanDecode none d r h = h
  PipeReady-CanDecode (some s) d r h = InProgress→CanDecode s d r

  module _ (some_more : 0 < length more) (plain_more : Plain more) where
    -- A round on the longer buffer, which has a byte at the position.
    next_extended :
        (f : ℕ) (self : MRespState) (d : Decoder)
        → IsValid d
        → Plain d.b
        → pipe_loop fp (suc f) expected self (extend d more)
          ≡ bind
              (validate fp (take_pending self.pending) (extend d more))
              (with_response fp (pipe_loop fp f expected) expected self)
    next_extended f self d v plain =
        let inside : d.i < length (d.b ++ more) = omega (arith, length-append d.b more, v.1) in
        let (x, rest, e, other) =
          All-drop _ d.i (d.b ++ more) (All-append _ d.b more plain plain_more) inside in
        round_next fp expected f self (extend d more) inside e other

    -- A response that is pending goes on in the first round of the next call.
    resumed :
        (g : ℕ) (self : MRespState) (s : ResponseState) (d : Decoder)
        → IsValid d
        → Plain d.b
        → InProgress s d.i
        → left (extend d more) < g
        → bind
            (validate fp s (extend d more))
            (with_response fp (pipe_loop fp g expected) expected self)
          ≡ validate_pipe fp expected (record self { pending = some s }) (extend d more)
    unfolding validate_pipe
    resumed g self s d v plain r h =
        let e : Decoder = extend d more in
        let valid : IsValid e = extend-IsValid d more v in
        let plain_both : Plain e.b = All-append _ d.b more plain plain_more in
        let inside : e.i < length e.b = omega (arith, length-append d.b more, v.1) in
        rw (next_extended (suc (left e)) (record self { pending = some s }) d v plain) (
          with_response-congr fp (pipe_loop fp g expected) (pipe_loop fp (suc (left e)) expected)
            expected 1 self (some s) e (validate fp s e)
            (validate-Spent fp (some s) e valid r inside)
            (λ self' d' no_pending a l.
              let none_owed : owed self'.pending ≡ 0 = ap owed no_pending in
              pipe_loop-fuel fp expected g (suc (left e)) self' d' (Advances-IsValid valid a)
                (rw no_pending tt) (rw a.0 plain_both) (omega arith) (omega arith)))

    -- The next round, behind a decoding that both buffers have.
    after_response :
        (f g : ℕ) (self : MRespState) (d : Decoder) (whole out : Outcome DecodeState)
        → IsValid d
        → Plain d.b
        → left d + owed self.pending < suc f
        → left (extend d more) + owed self.pending < suc g
        → Spent (owed self.pending) d out
        → Continues fp more d whole out
        → ((self' : MRespState) (d' : Decoder)
            → Advances d d'
            → self'.pending ≡ none
            → left d' < f
            → PipeContinues d'
                (validate_pipe fp expected self' (extend d' more))
                (pipe_loop fp f expected self' d'))
        → PipeContinues d
            (bind whole (with_response fp (pipe_loop fp g expected) expected self))
            (bind out (with_response fp (pipe_loop fp f expected) expected self))
    unfolding validate_pipe
    after_response f g self d whole (done (completed c) d') v plain h k (b, l) (a, w) rounds =
        elim (Bool-cases (length (self.processed ++ c ∷ []) == expected)) [
          | inl all ↦ rw (w, bind, with_response, all) (a, refl)
          | inr next ↦
              let self' : MRespState = record {
                processed = self.processed ++ c ∷ [];
                pending = none;
              } in
              let e : Decoder = extend d' more in
              let shorter : left e + 0 < g =
                omega (
                  arith,
                  ap length a.0,
                  length-append d.b more,
                  length-append d'.b more,
                  a.1,
                  a.2,
                ) in
              rw (w, bind, with_response, next)
                (rw
                  (pipe_loop-fuel fp expected g (suc (suc (left e))) self' e
                    (extend-IsValid d' more (Advances-IsValid v a)) tt
                    (All-append _ d'.b more (rw a.0 plain) plain_more) shorter (omega arith))
                  (PipeContinues-from d d' _ _ a (rounds self' d' a refl (omega arith))))
        ]
    after_response f g self d whole (done (pending s) d') v plain h k (b, l, _) (a, r, w) rounds = (
      a,
      r,
      rw w (
          resumed g self s d' (Advances-IsValid v a) (rw a.0 plain) r (
            omega
              (arith, ap length a.0, length-append d.b more, length-append d'.b more, a.1, a.2))),
    )
    after_response f g self d whole (fail x d') v plain h k w e rounds = rw e refl
    after_response f g self d whole panic v plain h k w e rounds = e
    after_response f g self d whole out_of_fuel v plain h k w e rounds = e

    pipe_loop-PipeContinues :
        (f : ℕ) (self : MRespState) (d : Decoder)
        → IsValid d
        → PipeReady self.pending d.i
        → Plain d.b
        → left d + owed self.pending < f
        → PipeContinues d
            (validate_pipe fp expected self (extend d more))
            (pipe_loop fp f expected self d)
    unfolding validate_pipe
    pipe_loop-PipeContinues zero self d v r plain h = absurd (omega arith)
    pipe_loop-PipeContinues (suc f) self d v r plain h = elim (dec_lt d.i (length d.b)) [
      | no past_end ↦
          rw (round_end fp expected f self d (omega (arith, v.1))) (Advances-refl d v.1, r, refl)
      | yes inside ↦
          let (x, rest, e, other) = All-drop _ d.i d.b plain inside in
          let g : ℕ = suc (left (extend d more)) in
          rw (round_next fp expected f self d inside e other) (
            rw (next_extended g self d v plain) (
              after_response f g self d (validate fp (take_pending self.pending) (extend d more))
                (validate fp (take_pending self.pending) d) v plain h
                (omega (arith, owed_le self.pending)) (validate-Spent fp self.pending d v r inside)
                (validate_resume fp (take_pending self.pending) d more v
                  (PipeReady-CanDecode self.pending d r inside) some_more)
                (λ self' d' a no_pending l.
                  let none_owed : owed self'.pending ≡ 0 = ap owed no_pending in
                  pipe_loop-PipeContinues f self' d' (Advances-IsValid v a) (rw no_pending tt)
                    (rw a.0 plain) (omega arith))))
    ]

-- Decoding the responses of a pipeline from a part of their bytes either ends as it does with any further
-- bytes behind them, or stops in a state from which it goes on, with those bytes, to the outcome of the
-- whole; it neither panics nor fails to end. It is asked that the buffer is not empty, that the position
-- lies in it or at its end, that a pending response is in progress there, that at least one byte follows,
-- and that no byte is 0xFF.
pub validate_pipe_resume :
    (fp : FloatParse) (expected : ℕ) (self : MRespState) (d : Decoder) (more : Bytes)
    → IsValid d
    → PipeReady self.pending d.i
    → 0 < length more
    → Plain d.b
    → Plain more
    → PipeContinues fp expected more d
        (validate_pipe fp expected self (extend d more))
        (validate_pipe fp expected self d)
unfolding validate_pipe
validate_pipe_resume fp expected self d more v r some_more plain plain_more =
    pipe_loop-PipeContinues fp expected more some_more plain_more (suc (suc (left d))) self d v r
      plain (omega (arith, owed_le self.pending))
