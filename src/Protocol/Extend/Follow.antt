-- ===== src/Protocol/Extend/Follow.antt =====
-- How `Follows` goes through the sequencing of methods.
use client_rust.Prelude.{ℕ, ◌≡◌, refl, ap, ◌∙◌, inl, inr, Bytes}
use client_rust.Protocol.Outcome.{Decoder, Outcome, done, fail, panic, out_of_fuel, Method, bind}
use client_rust.Protocol.Extend.{
  extend, IsValid, Advances, ◌⊑◌, Follows, Advances-refl, Follows-from,
}
use client_rust.Protocol.State.{ProtocolObjectDecodeState, completed, pending, convert}

pub ⊑_trans : {A : Type 0} {r s t : Outcome A} → r ⊑ s → s ⊑ t → r ⊑ t
⊑_trans (inl e) q = inl e
⊑_trans (inr e) (inl f) = inl (e ∙ f)
⊑_trans (inr e) (inr f) = inr (e ∙ f)

pub ⊑_bind : {A B : Type 0} {r s : Outcome A} (k : A → Method B) → r ⊑ s → bind r k ⊑ bind s k
⊑_bind k (inl e) = inl (ap (λ r. bind r k) e)
⊑_bind k (inr e) = inr (ap (λ r. bind r k) e)

pub Advances-IsValid : {d d' : Decoder} → IsValid d → Advances d d' → IsValid d'
Advances-IsValid (b, h) (e, m, l) = rw e (b, l)

module _ {T U : Type 0} (X : Type 0) (IsReady : U → ℕ → Type 0)
    (run : U → Method (ProtocolObjectDecodeState T U)) (more : Bytes) where
  pub Follows-below :
      (d : Decoder) (whole whole' out : Outcome (ProtocolObjectDecodeState T U))
      → whole ⊑ whole'
      → Follows X IsReady run more d whole' out
      → Follows X IsReady run more d whole out
  Follows-below d whole whole' (done (completed c) d') l (a, w) = (a, ⊑_trans l w)
  Follows-below d whole whole' (done (pending pv) d') l (a, r, w) = (a, r, ⊑_trans l w)
  Follows-below d whole whole' (fail e d') l w = ⊑_trans l w
  Follows-below d whole whole' panic l w = w
  Follows-below d whole whole' out_of_fuel l w = w

-- A method, and what is done with its result or with the state that it left pending.
module _ {T U T' U' : Type 0} (X : Type 0) (IsReady : U → ℕ → Type 0)
    (run : U → Method (ProtocolObjectDecodeState T U)) (IsReady' : U' → ℕ → Type 0)
    (run' : U' → Method (ProtocolObjectDecodeState T' U')) (more : Bytes) where
  pub Follows-bind :
      (k : ProtocolObjectDecodeState T U → Method (ProtocolObjectDecodeState T' U')) (d : Decoder)
      (whole out : Outcome (ProtocolObjectDecodeState T U))
      → ((c : T) (d' : Decoder)
          → Advances d d'
          → Follows X IsReady' run' more d' (k (completed c) (extend d' more)) (k (completed c) d'))
      → ((pv : U) (d' : Decoder)
          → Advances d d'
          → IsReady pv d'.i
          → Follows X IsReady' run' more d' (bind (run pv (extend d' more)) k) (k (pending pv) d'))
      → Follows X IsReady run more d whole out
      → Follows X IsReady' run' more d (bind whole k) (bind out k)
  Follows-bind k d whole (done (completed c) d') on_done on_pending (a, w) =
      Follows-below X IsReady' run' more d _ _ _ (⊑_bind k w)
        (Follows-from X IsReady' run' more d d' _ _ a (on_done c d' a))
  Follows-bind k d whole (done (pending pv) d') on_done on_pending (a, r, w) =
      Follows-below X IsReady' run' more d _ _ _ (⊑_bind k w)
        (Follows-from X IsReady' run' more d d' _ _ a (on_pending pv d' a r))
  Follows-bind k d whole (fail e d') on_done on_pending w = ⊑_bind k w
  Follows-bind k d whole panic on_done on_pending w = w
  Follows-bind k d whole out_of_fuel on_done on_pending w = w

  -- The conversion of the result or of the pending state.
  pub Follows-convert :
      (into : T → T') (back : U → U') (d : Decoder)
      (whole out : Outcome (ProtocolObjectDecodeState T U))
      → ((pv : U) (i : ℕ) → IsReady pv i → IsReady' (back pv) i)
      → ((pv : U) (d' : Decoder)
          → bind (run pv d') (λ r d₁. done (convert into back r) d₁) ≡ run' (back pv) d')
      → Follows X IsReady run more d whole out
      → Follows X IsReady' run' more d
          (bind whole (λ r d₁. done (convert into back r) d₁))
          (bind out (λ r d₁. done (convert into back r) d₁))
  Follows-convert into back d whole out ready same =
      Follows-bind _ d whole out (λ c d' a. (Advances-refl d' (rw a.0 a.2), inr refl))
        (λ pv d' a r.
          (Advances-refl d' (rw a.0 a.2), ready pv d'.i r, inr (same pv (extend d' more))))

-- Another way to go on from the same pending states, and another condition on them.
pub Follows-run :
    {T U : Type 0} (X : Type 0) (IsReady IsReady' : U → ℕ → Type 0)
    (run run' : U → Method (ProtocolObjectDecodeState T U)) (more : Bytes) (d : Decoder)
    (whole out : Outcome (ProtocolObjectDecodeState T U))
    → ((pv : U) (i : ℕ) → IsReady pv i → IsReady' pv i)
    → ((pv : U) (d' : Decoder)
        → Advances d d'
        → IsReady pv d'.i
        → run pv (extend d' more) ⊑ run' pv (extend d' more))
    → Follows X IsReady run more d whole out
    → Follows X IsReady' run' more d whole out
Follows-run X R R' run run' more d whole (done (completed c) d') ready same (a, w) = (a, w)
Follows-run X R R' run run' more d whole (done (pending pv) d') ready same (a, r, w) =
    (a, ready pv d'.i r, ⊑_trans w (same pv d' a r))
Follows-run X R R' run run' more d whole (fail e d') ready same w = w
Follows-run X R R' run run' more d whole panic ready same w = w
Follows-run X R R' run run' more d whole out_of_fuel ready same w = w
