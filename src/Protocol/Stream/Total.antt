-- ===== src/Protocol/Stream/Total.antt =====
-- `ValueStream::_complete` of src/protocol/mod.rs on a buffer that is extended, with the fuel it is given.
use client_rust.Prelude.{
  ℕ, zero, suc, ◌+◌, ◌-◌, ◌<◌, ◌≡◌, ◌≢◌, refl, sym, Bytes, length, ◌∷◌, [], arith, inl, inr, dec_lt,
  length-append,
}
use client_rust.Std.{FloatParse}
use client_rust.Protocol.Outcome.{Decoder, Outcome, done, fail, panic, out_of_fuel, Method}
use client_rust.Protocol.Extend.{extend, IsValid, Follows, ◌⊑◌, extend-IsValid}
use client_rust.Protocol.Extend.Follow.{⊑_trans, Follows-run, Advances-IsValid}
use client_rust.Protocol.State.{ProtocolObjectDecodeState, completed, pending}
use client_rust.Protocol.Value.{ValueStream}
use client_rust.Protocol.Value.Depth.{depth_stream}
use client_rust.Protocol.Value.Ready.{StreamReady, CountReady, element_count}
use client_rust.Protocol.Value.Resume.{StreamFollows, left}
use client_rust.Protocol.Stream.{stream_loop, complete_items}
use client_rust.Protocol.Stream.Fuel.{stream_loop-Less}
use client_rust.Protocol.Stream.Resume.{stream_loop-Follows}

-- An outcome that follows with no condition is not out of fuel.
pub Follows-ne-out_of_fuel :
    {T U : Type 0} (IsReady : U → ℕ → Type 0) (run : U → Method (ProtocolObjectDecodeState T U))
    (more : Bytes) (d : Decoder) (whole out : Outcome (ProtocolObjectDecodeState T U))
    → Follows ⊥ IsReady run more d whole out
    → out ≢ out_of_fuel
Follows-ne-out_of_fuel R run more d whole (done (completed c) d') w e = cc
Follows-ne-out_of_fuel R run more d whole (done (pending pv) d') w e = cc
Follows-ne-out_of_fuel R run more d whole (fail e d') w p = cc
Follows-ne-out_of_fuel R run more d whole panic w e = w
Follows-ne-out_of_fuel R run more d whole out_of_fuel w e = w

pub ⊑-eq : {A : Type 0} {r s : Outcome A} → r ≢ out_of_fuel → r ⊑ s → r ≡ s
⊑-eq h (inl e) = absurd (h e)
⊑-eq h (inr e) = e

module _ (fp : FloatParse) (vs : ValueStream) (size : ℕ) (d : Decoder) where
  more_fuel : (k f g : ℕ) → k + f ≡ g → stream_loop fp f vs size d ⊑ stream_loop fp g vs size d
  more_fuel zero f g e = let same : f ≡ g = omega arith in rw same (inr refl)
  more_fuel (suc k) f zero e = absurd (omega arith)
  more_fuel (suc k) f (suc g) e =
      ⊑_trans (more_fuel k f g (omega arith)) (stream_loop-Less fp g vs size d)

  enough_fuel :
      (f : ℕ)
      → IsValid d
      → StreamReady vs d.i
      → left d + depth_stream vs < f
      → stream_loop fp f vs size d ≢ out_of_fuel
  enough_fuel f v r h =
      Follows-ne-out_of_fuel (CountReady (element_count vs)) (λ ws. stream_loop fp f ws size)
        (0 ∷ []) d (stream_loop fp f vs size (extend d (0 ∷ []))) (stream_loop fp f vs size d)
        (stream_loop-Follows ⊥ fp (0 ∷ []) f (omega arith) (element_count vs) size vs d v (r, refl)
          (λ k. omega arith))

  any_fuel :
      (f : ℕ)
      → IsValid d
      → StreamReady vs d.i
      → stream_loop fp f vs size d ⊑ complete_items fp vs size d
  unfolding complete_items
  any_fuel f v r =
      let bound : ℕ = suc (left d + depth_stream vs) in
      elim (dec_lt bound f) [
        | yes more ↦ inr (
            sym (
              ⊑-eq (enough_fuel bound v r (omega arith))
                (more_fuel (f - bound) bound f (omega arith))))
        | no less ↦ more_fuel (bound - f) f bound (omega arith)
      ]

  pub enough_items :
      (f : ℕ)
      → IsValid d
      → StreamReady vs d.i
      → left d + depth_stream vs < f
      → stream_loop fp f vs size d ≡ complete_items fp vs size d
  enough_items f v r h = ⊑-eq (enough_fuel f v r h) (any_fuel f v r)

-- The loop of `_complete` never runs out of fuel, and goes on from what it left pending.
pub complete_items-Follows :
    (fp : FloatParse) (more : Bytes)
    → 0 < length more
    → StreamFollows ⊥ (λ _. Unit {0}) more (complete_items fp)
complete_items-Follows fp more some_more n size vs d v r _ =
    let f : ℕ = suc (left (extend d more) + depth_stream vs) in
    rw
      (
        ← enough_items fp vs size d f v r.0 (omega (arith, length-append d.b more)),
        ← enough_items fp vs size (extend d more) f (extend-IsValid d more v) r.0 (omega arith),
      )
      (Follows-run ⊥ (CountReady n) (CountReady n) (λ ws. stream_loop fp f ws size)
        (λ ws. complete_items fp ws size) more d (stream_loop fp f vs size (extend d more))
        (stream_loop fp f vs size d) (λ pv i q. q)
        (λ pv d' a q.
          any_fuel fp pv size (extend d' more) f (extend-IsValid d' more (Advances-IsValid v a))
            q.0)
        (stream_loop-Follows ⊥ fp more f some_more n size vs d v r
          (λ k. omega (arith, length-append d.b more))))
