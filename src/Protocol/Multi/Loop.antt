-- ===== src/Protocol/Multi/Loop.antt =====
-- The loop of `MultiValueStream::complete` in src/protocol/mod.rs: its rounds and its fuel.
use client_rust.Prelude.{
  ℕ, zero, suc, ◌+◌, ◌-◌, ◌≤◌, ◌<◌, ◌≡◌, refl, sym, ◌∙◌, true, false, ◌==◌, length, List, [], ◌∷◌,
  ◌++◌, Option, none, some, length-append, arith, inl, inr, Bool-cases,
}
use client_rust.Std.{FloatParse}
use client_rust.Response.{Values}
use client_rust.Protocol.Outcome.{Decoder, done, Method, bind}
use client_rust.Protocol.State.{ProtocolObjectDecodeState, completed, pending, try_complete}
use client_rust.Protocol.Sp.{SizeState, complete_size}
use client_rust.Protocol.Value.{ValueStream, items}
use client_rust.Protocol.Value.Ready.{StreamReady, StreamReady-later}
use client_rust.Protocol.Stream
use client_rust.Protocol.Multi.{
  MultiValueStream, MultiState, current_stream, with_stream, multi_round, multi_loop, complete,
}

-- A stream that waits is ready.
abbrev pub WaitingReady : Option ValueStream → ℕ → Type 0
WaitingReady none i = Unit
WaitingReady (some vs) i = StreamReady vs i

pub WaitingReady-later :
    (p : Option ValueStream) (i j : ℕ) → i ≤ j → WaitingReady p i → WaitingReady p j
WaitingReady-later none i j h r = tt
WaitingReady-later (some vs) i j h r = StreamReady-later vs i j h r

-- No more streams are stored than were announced; none before that.
abbrev pub Fits : SizeState → ℕ → Type 0
Fits (completed c) n = n ≤ c
Fits (pending pv) n = n ≡ 0

abbrev pub MultiReady : MultiValueStream → ℕ → Type 0
MultiReady self i = WaitingReady self.pending i × Fits self.stream_count (length self.items)

-- The state in which both sizes are known.
abbrev pub sized : ℕ → ℕ → List Values → Option ValueStream → MultiValueStream
sized c size vss p = record {
  stream_count = completed c;
  stream_size = completed size;
  items = vss;
  pending = p;
}

pub length_push : (vss : List Values) (vs : Values) → length (vss ++ vs ∷ []) ≡ length vss + 1
length_push vss vs = omega (arith, length-append vss (vs ∷ []))

module _ (fp : FloatParse) (c size : ℕ) where
  pub round_full :
      (f : ℕ) (vss : List Values) (p : Option ValueStream) (d : Decoder)
      → (length vss == c) ≡ true
      → multi_loop fp (suc f) c size (sized c size vss p) d
        ≡ done (completed (sized c size vss p)) d
  unfolding multi_loop multi_round
  round_full f vss p d h = ground arith

  pub round_next :
      (f : ℕ) (vss : List Values) (p : Option ValueStream) (d : Decoder)
      → (length vss == c) ≡ false
      → multi_loop fp (suc f) c size (sized c size vss p) d
        ≡ bind
            (Stream.complete_items fp (current_stream p d) size d)
            (with_stream (multi_loop fp f c size) (sized c size vss p))
  unfolding multi_loop multi_round
  round_next f vss p d h = ground arith

  with_stream_congr :
      (k k' : MultiValueStream → Method MultiState) (vss : List Values) (p : Option ValueStream)
      → ((ws : Values) (d : Decoder)
          → k (sized c size (vss ++ ws ∷ []) none) d ≡ k' (sized c size (vss ++ ws ∷ []) none) d)
      → (r : ProtocolObjectDecodeState ValueStream ValueStream) (d : Decoder)
      → with_stream k (sized c size vss p) r d ≡ with_stream k' (sized c size vss p) r d
  with_stream_congr k k' vss p h (completed vs) d = h (items vs) d
  with_stream_congr k k' vss p h (pending pvs) d = refl

  -- The stored pending stream is overwritten.
  same_stream :
      (k : MultiValueStream → Method MultiState) (vss : List Values) (p q : Option ValueStream)
      (r : ProtocolObjectDecodeState ValueStream ValueStream) (d : Decoder)
      → with_stream k (sized c size vss p) r d ≡ with_stream k (sized c size vss q) r d
  same_stream k vss p q (completed vs) d = refl
  same_stream k vss p q (pending pvs) d = refl

  -- Any two amounts of fuel that cover the streams left agree.
  multi_fuel :
      (f g : ℕ) (vss : List Values) (p : Option ValueStream) (d : Decoder)
      → length vss ≤ c
      → c - length vss < f
      → c - length vss < g
      → multi_loop fp f c size (sized c size vss p) d
        ≡ multi_loop fp g c size (sized c size vss p) d
  multi_fuel zero g vss p d h k l = absurd (omega arith)
  multi_fuel (suc f) zero vss p d h k l = absurd (omega arith)
  multi_fuel (suc f) (suc g) vss p d h k l = elim (Bool-cases (length vss == c)) [
    | inl full ↦ rw (round_full f vss p d full, round_full g vss p d full)
    | inr room ↦
        rw (round_next f vss p d room, round_next g vss p d room)
          (λ i. bind (Stream.complete_items fp (current_stream p d) size d) (λ r d'.
            with_stream_congr (multi_loop fp f c size) (multi_loop fp g c size) vss p
              (λ ws d''.
                multi_fuel f g (vss ++ ws ∷ []) none d'' (ground (arith, length_push vss ws))
                  (ground (arith, length_push vss ws)) (ground (arith, length_push vss ws)))
              r d' i))
  ]

  pub resume_loop :
      (vss : List Values) (p : Option ValueStream) (d : Decoder)
      → complete fp (sized c size vss p) d
        ≡ multi_loop fp (suc (c - length vss)) c size (sized c size vss p) d
  unfolding complete complete_size try_complete
  resume_loop vss p d = refl

  -- The pending stream goes on in the next call of `complete`.
  pub resume_stream :
      (f : ℕ) (vss : List Values) (p : Option ValueStream) (pvs : ValueStream) (d : Decoder)
      → (length vss == c) ≡ false
      → length vss ≤ c
      → c - length vss < suc f
      → bind
          (Stream.complete_items fp pvs size d)
          (with_stream (multi_loop fp f c size) (sized c size vss p))
        ≡ complete fp (sized c size vss (some pvs)) d
  resume_stream f vss p pvs d room h k =
      (λ i.
        bind (Stream.complete_items fp pvs size d)
          (λ r d'. same_stream (multi_loop fp f c size) vss p (some pvs) r d' i))
      ∙ sym (round_next f vss (some pvs) d room)
      ∙ multi_fuel (suc f) (suc (c - length vss)) vss (some pvs) d h k (omega arith)
      ∙ sym (resume_loop vss (some pvs) d)
