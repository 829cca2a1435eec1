-- ===== src/Protocol/Extend.antt =====
-- Extending the buffer, as `query` does with the bytes of each read, and what decoding on means then.
pub mod Follow
use client_rust.Prelude.{
  ℕ, ◌≤◌, ◌<◌, ◌≡◌, refl, ◌∙◌, ◌⊎◌, Bytes, length, ◌++◌, arith, length-append,
}
use native.Mathlib.Nat.{le_refl, le_trans}
use client_rust.Protocol.Outcome.{Decoder, Outcome, done, fail, panic, out_of_fuel, Method}
use client_rust.Protocol.Cursor.{decoder}
use client_rust.Protocol.State.{ProtocolObjectDecodeState, completed, pending}

-- `self.buf.extend_from_slice(more)`, with the position kept.
abbrev pub extend : Decoder → Bytes → Decoder
extend d more = decoder (d.b ++ more) d.i

-- The buffer holds a byte, and the position lies within it or at its end.
abbrev pub IsValid : Decoder → Type 0
IsValid d = (0 < length d.b) × (d.i ≤ length d.b)

-- The buffer is kept, and the position has not moved back.
abbrev pub Advances : Decoder → Decoder → Type 0
Advances d d' = (d'.b ≡ d.b) × (d.i ≤ d'.i) × (d'.i ≤ length d.b)

-- The two agree, unless the fuel of the first ran out.
infix 4 ◌⊑◌
abbrev pub ◌⊑◌ {ℓ} : {A : Type ℓ} → Outcome A → Outcome A → Type ℓ
r ⊑ r' = (r ≡ out_of_fuel) ⊎ (r ≡ r')

-- `out` is what a method gave at `d`, and `whole` what it gives when `more` follows the buffer. A
-- result or an error is kept, with its position. What is pending goes on with `run` to the outcome
-- `whole`, from the position where it stopped. There is no panic, and `X` if the fuel ran out.
abbrev pub Follows :
    {T U : Type 0}
    → Type 0
    → (U → ℕ → Type 0)
    → (U → Method (ProtocolObjectDecodeState T U))
    → Bytes
    → Decoder
    → Outcome (ProtocolObjectDecodeState T U)
    → Outcome (ProtocolObjectDecodeState T U)
    → Type 0
Follows X IsReady run more d whole (done (completed c) d') =
    Advances d d' × (whole ⊑ done (completed c) (extend d' more))
Follows X IsReady run more d whole (done (pending pv) d') =
    Advances d d' × IsReady pv d'.i × (whole ⊑ run pv (extend d' more))
Follows X IsReady run more d whole (fail e d') = whole ⊑ fail e (extend d' more)
Follows X IsReady run more d whole panic = ⊥
Follows X IsReady run more d whole out_of_fuel = X

pub Advances-refl : (d : Decoder) → d.i ≤ length d.b → Advances d d
Advances-refl d h = (refl, le_refl d.i, h)

pub Advances-trans : {d d' d'' : Decoder} → Advances d d' → Advances d' d'' → Advances d d''
Advances-trans (p, q, r) (p', q', r') = (p' ∙ p, le_trans q q', rw p at r')

-- An outcome that follows at a later position follows at an earlier one.
pub Follows-from :
    {T U : Type 0} (X : Type 0) (IsReady : U → ℕ → Type 0)
    (run : U → Method (ProtocolObjectDecodeState T U)) (more : Bytes) (d d' : Decoder)
    (whole out : Outcome (ProtocolObjectDecodeState T U))
    → Advances d d'
    → Follows X IsReady run more d' whole out
    → Follows X IsReady run more d whole out
Follows-from X IsReady run more d d' whole (done (completed c) d'') a (b, w) =
    (Advances-trans a b, w)
Follows-from X IsReady run more d d' whole (done (pending pv) d'') a (b, r, w) =
    (Advances-trans a b, r, w)
Follows-from X IsReady run more d d' whole (fail e d'') a w = w
Follows-from X IsReady run more d d' whole panic a w = w
Follows-from X IsReady run more d d' whole out_of_fuel a w = w

pub extend-IsValid : (d : Decoder) (more : Bytes) → IsValid d → IsValid (extend d more)
extend-IsValid d more (b, h) = omega (arith, length-append d.b more)
