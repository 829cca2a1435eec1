-- ===== src/Protocol/Wire/Sound.antt =====
-- What the methods of the decoder in src/protocol/mod.rs have read when they complete an object.
pub mod Lines
pub mod Blocks
pub mod Codes
pub mod Values
pub mod Items
pub mod Responses
pub mod Pipes
use client_rust.Prelude.{
  ℕ, ◌+◌, ◌≤◌, ◌≡◌, refl, sym, ap, ◌∙◌, Bool, true, false, Bytes, [], ◌∷◌, ◌++◌, length, drop,
  arith, append_assoc, if◌then◌else◌, drop-prefix, length-append,
}
use client_rust.Protocol.Outcome.{Decoder, Outcome, done, fail, panic, out_of_fuel, Method, bind}
use client_rust.Protocol.Cursor.{decoder}
use client_rust.Protocol.Extend.{IsValid}
use client_rust.Protocol.State.{ProtocolObjectDecodeState, completed, pending, convert}
use client_rust.Protocol.Wire.At.{At, past, past-past, At-past}

-- The completed object has the bytes at the position of the decoder, and the method stops behind them.
abbrev pub Sent :
    {T U : Type 0}
    → (T → Bytes → Type 0)
    → Decoder
    → Outcome (ProtocolObjectDecodeState T U)
    → Type 0
Sent W d (done (completed c) d') =
    (s : Bytes) × (rest : Bytes) × At d s rest × W c s × (d' ≡ past d s)
Sent W d (done (pending p) d') = Unit
Sent W d (fail e d') = Unit
Sent W d panic = Unit
Sent W d out_of_fuel = Unit

-- Behind the bytes `s`.
pub Sent-behind :
    {T U : Type 0} (W V : T → Bytes → Type 0) (d : Decoder) (s rest : Bytes)
    (out : Outcome (ProtocolObjectDecodeState T U))
    → At d s rest
    → ((c : T) (t : Bytes) → W c t → V c (s ++ t))
    → Sent W (past d s) out
    → Sent V d out
Sent-behind W V d s rest (done (completed c) d') (v, e) h (t, rest', (v', e'), w, p) =
    let after : drop (d.i + length s) d.b ≡ rest = drop-prefix d.i d.b s rest e in
    (
      s ++ t,
      rest',
      (v, e ∙ ap (λ u. s ++ u) (sym after ∙ e') ∙ sym (append_assoc s t rest')),
      h c t w,
      p ∙ past-past d s t,
    )
Sent-behind W V d s rest (done (pending p) d') at h w = tt
Sent-behind W V d s rest (fail e d') at h w = tt
Sent-behind W V d s rest panic at h w = tt
Sent-behind W V d s rest out_of_fuel at h w = tt

-- A method that goes on with a completed object, and stops with a pending one.
pub Sent-bind :
    {T U A B : Type 0} (W : T → Bytes → Type 0) (V : A → Bytes → Type 0) (d : Decoder)
    (out : Outcome (ProtocolObjectDecodeState T U))
    (k : ProtocolObjectDecodeState T U → Method (ProtocolObjectDecodeState A B))
    → Sent W d out
    → ((c : T) (s rest : Bytes) → At d s rest → W c s → Sent V d (k (completed c) (past d s)))
    → ((p : U) (d' : Decoder) → Sent V d (k (pending p) d'))
    → Sent V d (bind out k)
Sent-bind W V d (done (completed c) d') k (s, rest, at, w, p) h g = rw p (h c s rest at w)
Sent-bind W V d (done (pending p) d') k w h g = g p d'
Sent-bind W V d (fail e d') k w h g = tt
Sent-bind W V d panic k w h g = tt
Sent-bind W V d out_of_fuel k w h g = tt

pub Sent-if :
    {T U : Type 0} (W : T → Bytes → Type 0) (d : Decoder) (b : Bool)
    (out out' : Outcome (ProtocolObjectDecodeState T U))
    → (b ≡ true → Sent W d out)
    → Sent W d out'
    → Sent W d (if b then out else out')
Sent-if W d true out out' h h' = h refl
Sent-if W d false out out' h h' = h'

-- Both variants mapped.
pub Sent-convert :
    {S R T U : Type 0} (into : S → T) (back : R → U) (V : T → Bytes → Type 0) (d : Decoder)
    (out : Outcome (ProtocolObjectDecodeState S R))
    → Sent (λ x t. V (into x) t) d out
    → Sent V d (bind out (λ r d₁. done (convert into back r) d₁))
Sent-convert into back V d (done (completed c) d') w = w
Sent-convert into back V d (done (pending p) d') w = tt
Sent-convert into back V d (fail e d') w = tt
Sent-convert into back V d panic w = tt
Sent-convert into back V d out_of_fuel w = tt

pub Sent-map :
    {T U : Type 0} (W V : T → Bytes → Type 0) (d : Decoder)
    (out : Outcome (ProtocolObjectDecodeState T U))
    → ((c : T) (s : Bytes) → W c s → V c s)
    → Sent W d out
    → Sent V d out
Sent-map W V d (done (completed c) d') h (s, rest, at, w, p) = (s, rest, at, h c s w, p)
Sent-map W V d (done (pending p) d') h w = tt
Sent-map W V d (fail e d') h w = tt
Sent-map W V d panic h w = tt
Sent-map W V d out_of_fuel h w = tt

pub Sent-choice :
    {T U : Type 0} (W : T → Bytes → Type 0) (d : Decoder) (b : Bool)
    (m m' : Method (ProtocolObjectDecodeState T U))
    → (b ≡ true → Sent W d (m d))
    → Sent W d (m' d)
    → Sent W d ((if b then m else m') d)
Sent-choice W d true m m' h h' = h refl
Sent-choice W d false m m' h h' = h'
