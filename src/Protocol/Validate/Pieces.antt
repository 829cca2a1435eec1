-- ===== src/Protocol/Validate/Pieces.antt =====
-- `validate_response` of src/protocol/mod.rs for a caller that receives a response in pieces.
use client_rust.Prelude.{◌<◌, ◌≡◌, ◌≢◌, Bytes, length, [], ◌∷◌, arith, length-append}
use client_rust.Std.{FloatParse}
use client_rust.Protocol.Outcome.{Decoder, Outcome, done, fail, panic, out_of_fuel}
use client_rust.Protocol.Extend.{extend, IsValid, Advances, Follows, extend-IsValid}
use client_rust.Protocol.State.{completed, pending}
use client_rust.Protocol.Stream.Total.{Follows-ne-out_of_fuel, ⊑-eq}
use client_rust.Protocol.Validate.{
  ResponseState, initial, p_value, p_error, p_row, p_multi_row, DecodeState, validate,
}
use client_rust.Protocol.Validate.Resume.{InProgress, CanDecode, validate-Follows}

-- `out` is the outcome at `d` and `whole` the outcome with `more` behind the buffer: a response or an
-- error is the same, at the same position; a pending response is in progress, at a position of the
-- buffer that is not before `d`'s, and decoding it on gives `whole`. A panic or an endless loop is no
-- such outcome.
abbrev pub Continues :
    FloatParse → Bytes → Decoder → Outcome DecodeState → Outcome DecodeState → Type 0
Continues fp more d whole (done (completed c) d') =
    Advances d d' × (whole ≡ done (completed c) (extend d' more))
Continues fp more d whole (done (pending s) d') =
    Advances d d' × InProgress s d'.i × (whole ≡ validate fp s (extend d' more))
Continues fp more d whole (fail e d') = whole ≡ fail e (extend d' more)
Continues fp more d whole panic = ⊥
Continues fp more d whole out_of_fuel = ⊥

Follows→Continues :
    (fp : FloatParse) (more : Bytes) (d : Decoder) (whole out : Outcome DecodeState)
    → whole ≢ out_of_fuel
    → Follows ⊥ InProgress (validate fp) more d whole out
    → Continues fp more d whole out
Follows→Continues fp more d whole (done (completed c) d') h (a, w) = (a, ⊑-eq h w)
Follows→Continues fp more d whole (done (pending s) d') h (a, r, w) = (a, r, ⊑-eq h w)
Follows→Continues fp more d whole (fail e d') h w = ⊑-eq h w
Follows→Continues fp more d whole panic h w = w
Follows→Continues fp more d whole out_of_fuel h w = w

-- The loops end.
pub validate-ne-out_of_fuel :
    (fp : FloatParse) (s : ResponseState) (d : Decoder)
    → IsValid d
    → CanDecode s d
    → validate fp s d ≢ out_of_fuel
validate-ne-out_of_fuel fp s d v h =
    Follows-ne-out_of_fuel InProgress (validate fp) (0 ∷ []) d (validate fp s (extend d (0 ∷ [])))
      (validate fp s d) (validate-Follows fp (0 ∷ []) (omega arith) s d v h)

CanDecode-extend :
    (s : ResponseState) (d : Decoder) (more : Bytes) → CanDecode s d → CanDecode s (extend d more)
CanDecode-extend initial d more h = omega (arith, length-append d.b more)
CanDecode-extend (p_value pv) d more h = h
CanDecode-extend p_error d more h = h
CanDecode-extend (p_row vs) d more h = h
CanDecode-extend (p_multi_row mvs) d more h = h

pub InProgress→CanDecode : (s : ResponseState) (d : Decoder) → InProgress s d.i → CanDecode s d
InProgress→CanDecode initial d h = absurd h
InProgress→CanDecode (p_value pv) d h = h
InProgress→CanDecode p_error d h = h
InProgress→CanDecode (p_row vs) d h = h
InProgress→CanDecode (p_multi_row mvs) d h = h

-- Decoding a response from part of its bytes either ends as it does with any further bytes behind them,
-- or stops in a state from which it goes on, with those bytes, to the outcome of the whole; the
-- position never moves back and stays in the buffer; and decoding neither panics nor fails to end. It
-- is asked that the buffer is not empty, that the position lies in it or at its end, that a new
-- response begins before the end, and that at least one byte follows.
pub validate_resume :
    (fp : FloatParse) (s : ResponseState) (d : Decoder) (more : Bytes)
    → IsValid d
    → CanDecode s d
    → 0 < length more
    → Continues fp more d (validate fp s (extend d more)) (validate fp s d)
validate_resume fp s d more v h some_more =
    Follows→Continues fp more d (validate fp s (extend d more)) (validate fp s d)
      (validate-ne-out_of_fuel fp s (extend d more) (extend-IsValid d more v)
        (CanDecode-extend s d more h))
      (validate-Follows fp more some_more s d v h)
