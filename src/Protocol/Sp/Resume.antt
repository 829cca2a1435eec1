-- ===== src/Protocol/Sp/Resume.antt =====
-- Sizes and `SpObjectState::complete` of src/protocol/mod.rs on a buffer that is extended.
use client_rust.Prelude.{
  ℕ, ◌+◌, ◌-◌, ◌≤◌, ◌<◌, ◌≡◌, refl, sym, Bytes, true, false, length, drop, take, arith, leb, inl,
  inr, length-append, take-append, Bool-cases, dec_lt,
}
use client_rust.Protocol.Outcome.{Decoder, done, Method, bind}
use client_rust.Protocol.Cursor.{decoder}
use client_rust.Protocol.Cursor.Laws.{has_left_lem, next_chunk_lem}
use client_rust.Protocol.Extend.{extend, IsValid, Follows, Advances-refl, Follows-from}
use client_rust.Protocol.Extend.Follow.{Follows-bind, Follows-convert, Advances-IsValid}
use client_rust.Protocol.State.{ProtocolObjectDecodeState, completed, pending, try_complete}
use client_rust.Protocol.Lfs
use client_rust.Protocol.Lfs.{LfsValue, usize_object}
use client_rust.Protocol.Lfs.Objects.{AlwaysReady, unsigned-IsLocal}
use client_rust.Protocol.Lfs.Resume
use client_rust.Protocol.Lfs.Resume.{KeepsAt}
use client_rust.Protocol.Sp.{
  SizeState, complete_size, SpObjectState, Finish, finish_binary, finish_string, take_block,
  with_size, complete,
}
use client_rust.Std.{is_utf8}
use client_rust.Error.{invalid_server_response_for_data}

-- A size that is still being read goes on by `complete_size`.
abbrev pub resume_size : LfsValue ℕ (Unit {0}) → Method SizeState
resume_size pv = complete_size (pending pv)

pub complete_size-Follows :
    (X : Type 0) (more : Bytes) (size : SizeState) (d : Decoder)
    → IsValid d
    → Follows X AlwaysReady resume_size more d
        (complete_size size (extend d more))
        (complete_size size d)
unfolding complete_size try_complete
complete_size-Follows X more (completed c) d v = (Advances-refl d v.1, inr refl)
complete_size-Follows X more (pending pv) d v =
    Follows-convert X AlwaysReady (Lfs.complete usize_object) AlwaysReady resume_size more
      (λ x. x.v) (λ p. p) d (Lfs.complete usize_object pv (extend d more))
      (Lfs.complete usize_object pv d) (λ pv i r. r) (λ pv d'. refl)
      (Resume.complete-Follows X usize_object AlwaysReady (unsigned-IsLocal 64) more pv d v tt)

-- `finish` looks at its block alone.
abbrev pub FinishIsLocal : Finish → Type 0
FinishIsLocal finish = (block : Bytes) (d : Decoder) (more : Bytes) → KeepsAt (finish block) d more

pub finish_binary-FinishIsLocal : FinishIsLocal finish_binary
unfolding finish_binary
finish_binary-FinishIsLocal block d more = inl (block, refl, refl)

pub finish_string-FinishIsLocal : FinishIsLocal finish_string
unfolding finish_string
finish_string-FinishIsLocal block d more = elim (Bool-cases (is_utf8 block)) [
  | inl valid ↦ inl (block, rw valid, rw valid)
  | inr invalid ↦ inr (invalid_server_response_for_data, rw invalid, rw invalid)
]

abbrev pub SpReady : SpObjectState → ℕ → Type 0
SpReady x i = Unit

module _ (X : Type 0) (finish : Finish) (local : FinishIsLocal finish) (more : Bytes) where
  abbrev finished :
      SpObjectState → Bytes → Method (ProtocolObjectDecodeState SpObjectState SpObjectState)
  finished self block d =
      bind (finish block d) λ v' d'. done (completed (record self { v = v' })) d'

  finished-Follows :
      (self : SpObjectState) (block : Bytes) (d : Decoder)
      → d.i ≤ length d.b
      → Follows X SpReady
          (complete finish)
          more
          d
          (finished self block (extend d more))
          (finished self block d)
  finished-Follows self block d h = elim (local block d more) [
    | inl (v, here, there) ↦ rw (here, there) (Advances-refl d h, inr refl)
    | inr (e, here, there) ↦ rw (here, there) (inr refl)
  ]

  take_block_enough :
      (size : ℕ) (self : SpObjectState) (d : Decoder)
      → d.i + size ≤ length d.b
      → take_block finish size self d
        ≡ finished self (drop d.i (take (d.i + size) d.b)) (decoder d.b (d.i + size))
  unfolding take_block
  take_block_enough size self d h =
      let enough : leb size (length d.b - d.i) ≡ true = ground arith in
      rw (has_left_lem size d (omega arith), enough, next_chunk_lem size d h)

  take_block_short :
      (size : ℕ) (self : SpObjectState) (d : Decoder)
      → d.i ≤ length d.b
      → length d.b < d.i + size
      → take_block finish size self d ≡ done (pending self) d
  unfolding take_block
  take_block_short size self d h k =
      let short : leb size (length d.b - d.i) ≡ false = ground arith in
      rw (has_left_lem size d h, short)

  resume_block :
      (size : ℕ) (v : Bytes) (d : Decoder)
      → let self : SpObjectState = record { size = completed size; v = v } in
        complete finish self d ≡ take_block finish size self d
  unfolding complete complete_size try_complete
  resume_block size v d = refl

  -- The size is known: the block is taken whole, or waited for.
  take_block-Follows :
      (size : ℕ) (w : Bytes) (d : Decoder)
      → IsValid d
      → let self : SpObjectState = record { size = completed size; v = w } in
        Follows X SpReady
          (complete finish)
          more
          d
          (take_block finish size self (extend d more))
          (take_block finish size self d)
  take_block-Follows size w d v =
      let self : SpObjectState = record { size = completed size; v = w } in
      elim (dec_lt (length d.b) (d.i + size)) [
        | yes short ↦
            rw (take_block_short size self d v.1 short)
              (Advances-refl d v.1, tt, inr (sym (resume_block size w (extend d more))))
        | no enough ↦
            let fits : d.i + size ≤ length d.b = omega arith in
            rw
              (
                take_block_enough size self d fits,
                take_block_enough size self (extend d more) (omega (arith, length-append d.b more)),
                take-append (d.i + size) d.b more fits,
              )
              (Follows-from X SpReady (complete finish) more d (decoder d.b (d.i + size)) _ _
                (refl, omega arith, fits)
                (finished-Follows self (drop d.i (take (d.i + size) d.b)) (decoder d.b (d.i + size))
                  fits))
      ]

  same_size :
      (self : SpObjectState) (size s : SizeState) (d : Decoder)
      → with_size finish (record self { size = size }) s d ≡ with_size finish self s d
  same_size self size (completed c) d = refl
  same_size self size (pending pv) d = refl

  resume_pending :
      (self : SpObjectState) (pv : LfsValue ℕ (Unit {0})) (d : Decoder)
      → bind (resume_size pv d) (with_size finish self)
        ≡ complete finish (record self { size = pending pv }) d
  unfolding complete
  resume_pending self pv d =
      λ i. bind (resume_size pv d) (λ s d'. sym (same_size self (pending pv) s d') i)

  pub complete-Follows :
      (self : SpObjectState) (d : Decoder)
      → IsValid d
      → Follows X SpReady
          (complete finish)
          more
          d
          (complete finish self (extend d more))
          (complete finish self d)
  unfolding complete
  complete-Follows self d v =
      Follows-bind X AlwaysReady resume_size SpReady (complete finish) more (with_size finish self)
        d (complete_size self.size (extend d more)) (complete_size self.size d)
        (λ c d' a. take_block-Follows c self.v d' (Advances-IsValid v a))
        (λ pv d' a r. (
          Advances-refl d' (Advances-IsValid v a).1,
          tt,
          inr (resume_pending self pv (extend d' more)),
        ))
        (complete_size-Follows X more self.size d v)
