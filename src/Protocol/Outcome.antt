-- ===== src/Protocol/Outcome.antt =====
-- What a method of the decoder returns: a value or a `ProtocolError`, each with the decoder as the
-- method leaves it; a panic (an index out of range); or no result, where a loop's fuel ran out.
use client_rust.Prelude.{ℕ, Bytes}
use client_rust.Error.{ProtocolError}

-- `struct Decoder`: a buffer and the position in it.
pub record Decoder : Type 0 where
  pub b : Bytes
  pub i : ℕ

pub data Outcome {ℓ} (A : Type ℓ) : Type ℓ where
  done : A → Decoder → Outcome A
  fail : ProtocolError → Decoder → Outcome A
  panic : Outcome A
  out_of_fuel : Outcome A

-- A method of the decoder.
abbrev pub Method {ℓ} : Type ℓ → Type ℓ
Method A = Decoder → Outcome A

abbrev pub bind {ℓ κ} : {A : Type ℓ} {B : Type κ} → Outcome A → (A → Method B) → Outcome B
bind (done a d) f = f a d
bind (fail e d) f = fail e d
bind panic f = panic
bind out_of_fuel f = out_of_fuel

infixl 5 ◌>>=◌ ◌>>◌
abbrev pub ◌>>=◌ {ℓ κ} : {A : Type ℓ} {B : Type κ} → Method A → (A → Method B) → Method B
◌>>=◌ m f d = bind (m d) f

abbrev pub ◌>>◌ {ℓ κ} : {A : Type ℓ} {B : Type κ} → Method A → Method B → Method B
m >> k = m >>= λ _. k

abbrev pub pure {ℓ} : {A : Type ℓ} → A → Method A
pure a d = done a d

abbrev pub throw {ℓ} : {A : Type ℓ} → ProtocolError → Method A
throw e d = fail e d
