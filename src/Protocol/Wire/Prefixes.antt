-- ===== src/Protocol/Wire/Prefixes.antt =====
-- `validate_response` of src/protocol/mod.rs on a part of the bytes of a response.
use client_rust.Prelude.{
  ℕ, ◌-◌, ◌<◌, ◌≡◌, sym, ap, ◌∙◌, Bytes, [], ◌++◌, length, arith, length-append, append-nil,
  length-drop, drop-append,
}
use client_rust.Std.{FloatParse}
use client_rust.Response.{Response}
use client_rust.Protocol.Outcome.{Decoder, Outcome, done, fail, panic, out_of_fuel}
use client_rust.Protocol.Extend.{extend, Advances, extend-IsValid}
use client_rust.Protocol.State.{completed, pending}
use client_rust.Protocol.Validate.{DecodeState, validate, initial}
use client_rust.Protocol.Validate.Resume.{InProgress}
use client_rust.Protocol.Validate.Pieces.{Continues, validate_resume}
use client_rust.Protocol.Wire.{WireResponse}
use client_rust.Protocol.Wire.At.{At, past}
use client_rust.Protocol.Wire.Responses.{validate-WireResponse}

-- A decoding that stopped in the middle of a response.
abbrev pub Waits : Decoder → Outcome DecodeState → Type 0
Waits d (done (completed c) d') = ⊥
Waits d (done (pending s) d') = Advances d d' × InProgress s d'.i
Waits d (fail e d') = ⊥
Waits d panic = ⊥
Waits d out_of_fuel = ⊥

abbrev position : Outcome DecodeState → ℕ
position (done s d) = d.i
position _ = 0

Continues→Waits :
    (fp : FloatParse) (more : Bytes) (d : Decoder) (whole out : Outcome DecodeState) (r : Response)
    (d₁ : Decoder)
    → whole ≡ done (completed r) d₁
    → length d.b < d₁.i
    → Continues fp more d whole out
    → Waits d out
Continues→Waits fp more d whole (done (completed c) d') r d₁ e behind (a, w) =
    let same : d₁.i ≡ d'.i = ap position (sym e ∙ w) in absurd (omega (arith, a.2))
Continues→Waits fp more d whole (done (pending s) d') r d₁ e behind (a, k, w) = (a, k)
Continues→Waits fp more d whole (fail x d') r d₁ e behind w = cc
Continues→Waits fp more d whole panic r d₁ e behind w = w
Continues→Waits fp more d whole out_of_fuel r d₁ e behind w = w

-- A part of the bytes of a response that is not all of them is neither taken for a response nor refused.
pub validate-prefix :
    (fp : FloatParse) (r : Response) (p q : Bytes) (d : Decoder)
    → WireResponse fp r (p ++ q)
    → 0 < length p
    → 0 < length q
    → At d p []
    → Waits d (validate fp initial d)
validate-prefix fp r p q d wire some_bytes some_more (v, e) =
    let size : length d.b - d.i ≡ length p =
      sym (length-drop d.i d.b) ∙ ap length (e ∙ append-nil p) in
    let d' : Decoder = extend d q in
    let at : At d' (p ++ q) [] = (
      extend-IsValid d q v,
      drop-append d.i d.b q v.1 ∙ ap (λ u. u ++ q) (e ∙ append-nil p) ∙ sym (append-nil (p ++ q)),
    ) in
    Continues→Waits fp q d (validate fp initial d') (validate fp initial d) r (past d' (p ++ q))
      (validate-WireResponse fp wire d' [] at) (omega (arith, length-append p q))
      (validate_resume fp initial d q v (omega arith) some_more)
