-- ===== src/Protocol/Multi/Resume.antt =====
-- `MultiValueStream::complete` of src/protocol/mod.rs on a buffer that is extended.
use client_rust.Prelude.{
  ℕ, zero, suc, ◌-◌, ◌≤◌, ◌<◌, ◌≡◌, refl, sym, Bytes, ◌==◌, length, List, [], ◌∷◌, ◌++◌, Option,
  none, some, arith, inl, inr, Bool-cases,
}
use client_rust.Std.{FloatParse}
use client_rust.Response.{Values}
use client_rust.Protocol.Outcome.{Decoder, Method, bind}
use client_rust.Protocol.Extend.{extend, IsValid, Follows, Advances-refl}
use client_rust.Protocol.Extend.Follow.{Follows-bind, Advances-IsValid}
use client_rust.Protocol.State.{completed, pending, try_complete}
use client_rust.Protocol.Lfs
use client_rust.Protocol.Lfs.{LfsValue}
use client_rust.Protocol.Lfs.Objects.{AlwaysReady}
use client_rust.Protocol.Sp.{SizeState, complete_size}
use client_rust.Protocol.Sp.Resume.{resume_size, complete_size-Follows}
use client_rust.Protocol.Value.{ValueStream, items, initialize_stream}
use client_rust.Protocol.Value.Ready.{StreamReady, element_count, CountReady}
use client_rust.Protocol.Stream
use client_rust.Protocol.Stream.Total.{complete_items-Follows}
use client_rust.Protocol.Multi.{
  MultiValueStream, MultiState, current_stream, with_stream, with_stream_size, with_stream_count,
  multi_loop, complete,
}
use client_rust.Protocol.Multi.Loop.{
  WaitingReady, WaitingReady-later, MultiReady, sized, length_push, round_full, round_next,
  resume_stream,
}

current_stream-extend :
    (p : Option ValueStream) (d : Decoder) (more : Bytes)
    → current_stream p (extend d more) ≡ current_stream p d
unfolding initialize_stream Lfs.initialize
current_stream-extend none d more = refl
current_stream-extend (some vs) d more = refl

current_stream-StreamReady :
    (p : Option ValueStream) (d : Decoder)
    → WaitingReady p d.i
    → StreamReady (current_stream p d) d.i
unfolding initialize_stream
current_stream-StreamReady none d r = tt
current_stream-StreamReady (some vs) d r = r

module _ (fp : FloatParse) (more : Bytes) (some_more : 0 < length more) where
  abbrev pub Resumes : Decoder → (Method MultiState) → Type 0
  Resumes d m = Follows ⊥ MultiReady (complete fp) more d (m (extend d more)) (m d)

  loop-Follows :
      (c size f : ℕ) (vss : List Values) (p : Option ValueStream) (d : Decoder)
      → IsValid d
      → WaitingReady p d.i
      → length vss ≤ c
      → c - length vss < f
      → Resumes d (multi_loop fp f c size (sized c size vss p))
  loop-Follows c size zero vss p d v r h k = absurd (omega arith)
  loop-Follows c size (suc f) vss p d v r h k = elim (Bool-cases (length vss == c)) [
    | inl full ↦
        rw (round_full fp c size f vss p d full, round_full fp c size f vss p (extend d more) full)
          (Advances-refl d v.1, inr refl)
    | inr room ↦
        let cur : ValueStream = current_stream p d in
        rw
          (
            round_next fp c size f vss p d room,
            round_next fp c size f vss p (extend d more) room,
            current_stream-extend p d more,
          )
          (Follows-bind ⊥ (CountReady (element_count cur)) (λ ws. Stream.complete_items fp ws size)
            MultiReady (complete fp) more
            (with_stream (multi_loop fp f c size) (sized c size vss p)) d
            (Stream.complete_items fp cur size (extend d more))
            (Stream.complete_items fp cur size d)
            (λ vs d' a.
              loop-Follows c size f (vss ++ items vs ∷ []) none d' (Advances-IsValid v a) tt
                (ground (arith, length_push vss (items vs)))
                (ground (arith, length_push vss (items vs))))
            (λ pvs d' a q. (
              Advances-refl d' (Advances-IsValid v a).1,
              (q.0, h),
              inr (resume_stream fp c size f vss p pvs (extend d' more) room h k),
            ))
            (complete_items-Follows fp more some_more (element_count cur) size cur d v
              (current_stream-StreamReady p d r, refl) tt))
  ]

  -- Sizes that a later step overwrites.
  same_size :
      (self : MultiValueStream) (c : ℕ) (t u s : SizeState) (d : Decoder)
      → with_stream_size fp (record self { stream_count = t; stream_size = u }) c s d
        ≡ with_stream_size fp self c s d
  same_size self c t u (completed size) d = refl
  same_size self c t u (pending pv) d = refl

  same_count :
      (self : MultiValueStream) (t s : SizeState) (d : Decoder)
      → with_stream_count fp (record self { stream_count = t }) s d ≡ with_stream_count fp self s d
  same_count self t (completed c) d = λ i.
      bind (complete_size self.stream_size d) (λ s d'. same_size self c t self.stream_size s d' i)
  same_count self t (pending pv) d = refl

  resume_size_of :
      (self : MultiValueStream) (c : ℕ) (pv : LfsValue ℕ (Unit {0})) (d : Decoder)
      → bind (resume_size pv d) (with_stream_size fp self c)
        ≡ complete fp (record self { stream_count = completed c; stream_size = pending pv }) d
  unfolding complete complete_size try_complete
  resume_size_of self c pv d = λ i.
      bind (resume_size pv d) (λ s d'. sym (same_size self c (completed c) (pending pv) s d') i)

  resume_count_of :
      (self : MultiValueStream) (pv : LfsValue ℕ (Unit {0})) (d : Decoder)
      → bind (resume_size pv d) (with_stream_count fp self)
        ≡ complete fp (record self { stream_count = pending pv }) d
  unfolding complete
  resume_count_of self pv d =
      λ i. bind (resume_size pv d) (λ s d'. sym (same_count self (pending pv) s d') i)

  -- The number of streams is known: the number of values in each of them, and the loop.
  at_size :
      (self : MultiValueStream) (c : ℕ) (s : SizeState) (d : Decoder)
      → IsValid d
      → WaitingReady self.pending d.i
      → length self.items ≤ c
      → Resumes d (λ d'. bind (complete_size s d') (with_stream_size fp self c))
  at_size self c s d v r h =
      Follows-bind ⊥ AlwaysReady resume_size MultiReady (complete fp) more
        (with_stream_size fp self c) d (complete_size s (extend d more)) (complete_size s d)
        (λ size d' a.
          loop-Follows c size (suc (c - length self.items)) self.items self.pending d'
            (Advances-IsValid v a) (WaitingReady-later self.pending d.i d'.i a.1 r) h (omega arith))
        (λ pv d' a _. (
          Advances-refl d' (Advances-IsValid v a).1,
          (WaitingReady-later self.pending d.i d'.i a.1 r, h),
          inr (resume_size_of self c pv (extend d' more)),
        ))
        (complete_size-Follows ⊥ more s d v)

  -- The number of streams was known before.
  known_count :
      (self : MultiValueStream) (c : ℕ) (d : Decoder)
      → complete fp (record self { stream_count = completed c }) d
        ≡ bind (complete_size self.stream_size d) (with_stream_size fp self c)
  unfolding complete complete_size try_complete
  known_count self c d = λ i.
      bind (complete_size self.stream_size d)
        (λ s d'. same_size self c (completed c) self.stream_size s d' i)

  at_count :
      (self : MultiValueStream) (n : SizeState) (d : Decoder)
      → IsValid d
      → MultiReady (record self { stream_count = n }) d.i
      → Resumes d (complete fp (record self { stream_count = n }))
  at_count self (completed c) d v r =
      rw (known_count self c d, known_count self c (extend d more))
        (at_size self c self.stream_size d v r.0 r.1)
  at_count self (pending pv) d v r =
      rw (← resume_count_of self pv d, ← resume_count_of self pv (extend d more))
        (Follows-bind ⊥ AlwaysReady resume_size MultiReady (complete fp) more
          (with_stream_count fp self) d (resume_size pv (extend d more)) (resume_size pv d)
          (λ c d' a.
            at_size self c self.stream_size d' (Advances-IsValid v a)
              (WaitingReady-later self.pending d.i d'.i a.1 r.0) (omega arith))
          (λ qv d' a _. (
            Advances-refl d' (Advances-IsValid v a).1,
            (WaitingReady-later self.pending d.i d'.i a.1 r.0, r.1),
            inr (resume_count_of self qv (extend d' more)),
          ))
          (complete_size-Follows ⊥ more (pending pv) d v))

  pub complete-Follows :
      (self : MultiValueStream) (d : Decoder)
      → IsValid d
      → MultiReady self d.i
      → Resumes d (complete fp self)
  complete-Follows self d v r = at_count self self.stream_count d v r
