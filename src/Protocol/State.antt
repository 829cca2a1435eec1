-- ===== src/Protocol/State.antt =====
-- `enum ProtocolObjectDecodeState` and the trait `ProtocolObjectState`.
use client_rust.Protocol.Outcome.{Method, bind, done}

pub data ProtocolObjectDecodeState {ℓ κ} (T : Type ℓ) (U : Type κ) : Type (ℓ ⊔ κ) where
  completed : T → ProtocolObjectDecodeState T U
  pending : U → ProtocolObjectDecodeState T U

-- `fn complete(self, decoder)` of an object whose state is of type `S`.
abbrev pub Complete : Type 0 → Type 0
Complete S = S → Method (ProtocolObjectDecodeState S S)

-- Both variants mapped: `into` on a completed object, `back` on a pending one.
abbrev pub convert :
    {S R T U : Type 0}
    → (S → T)
    → (R → U)
    → ProtocolObjectDecodeState S R
    → ProtocolObjectDecodeState T U
convert into back (completed c) = completed (into c)
convert into back (pending pv) = pending (back pv)

-- `ProtocolObjectDecodeState::try_complete`: `complete` and `into_value` are the trait's methods.
unfoldable pub try_complete :
    {T U : Type 0}
    → Complete U
    → (U → T)
    → ProtocolObjectDecodeState T U
    → Method (ProtocolObjectDecodeState T U)
try_complete complete into_value (completed c) d = done (completed c) d
try_complete complete into_value (pending pv) d =
    bind (complete pv d) λ r d₁. done (convert into_value (λ p. p) r) d₁
