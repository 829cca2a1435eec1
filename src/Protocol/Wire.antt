-- ===== src/Protocol/Wire.antt =====
-- The wire format of values and responses, as relations between what is sent and its bytes: what the
-- decoder of src/protocol/mod.rs is meant to read. It is the format of any server, so a number may be
-- written with any decimal digits.
pub mod At
pub mod Lines
pub mod Blocks
pub mod Codes
pub mod Items
pub mod Responses
pub mod Prefixes
pub mod Pipes
pub mod Sound
pub mod Types
use client_rust.Prelude.{
  ℕ, ◌+◌, ◌*◌, ◌^◌, ◌<◌, ◌≡◌, All, Bool, Bytes, List, [], ◌∷◌, ◌++◌, Option, some, length, true,
  false, lf, ◌==◌, if◌then◌else◌,
}
use client_rust.Std.{ℤ, FloatParse, is_utf8, parse_digits, parse_signed}
use client_rust.Response.{Value, Values, count, Row, Response}
use client_rust.Protocol.Validate.{from_le_bytes}

-- The digits `s` write the number `n`, which fits into `w` bits; no digit at all writes 0.
abbrev pub Digits : ℕ → Bytes → ℕ → Type 0
Digits w s n = (parse_digits 0 s ≡ some n) × (n < 2 ^ w)

-- The text `s` is valid, has no line feed, and is parsed to `x`.
abbrev pub Line : {A : Type 0} → (Bytes → Option A) → Bytes → A → Type 0
Line parse s x = (parse s ≡ some x) × (is_utf8 s ≡ true) × All (λ c. (c == lf) ≡ false) s

module _ (fp : FloatParse) where
  -- A value and its bytes, the code first; the same for a sequence of values.
  mutual
    pub data WireValue : Value → Bytes → Type 0 where
      null : WireValue Value.null (0x00 ∷ [])
      bool : (b : Bool) → WireValue (Value.bool b) (0x01 ∷ (if b then 1 else 0) ∷ [])
      uint8 : (n : ℕ) (s : Bytes) → Digits 8 s n → WireValue (Value.uint8 n) (0x02 ∷ (s ++ lf ∷ []))
      uint16 :
          (n : ℕ) (s : Bytes) → Digits 16 s n → WireValue (Value.uint16 n) (0x03 ∷ (s ++ lf ∷ []))
      uint32 :
          (n : ℕ) (s : Bytes) → Digits 32 s n → WireValue (Value.uint32 n) (0x04 ∷ (s ++ lf ∷ []))
      uint64 :
          (n : ℕ) (s : Bytes) → Digits 64 s n → WireValue (Value.uint64 n) (0x05 ∷ (s ++ lf ∷ []))
      sint8 :
          (z : ℤ) (s : Bytes)
          → Line (parse_signed 8) s z
          → WireValue (Value.sint8 z) (0x06 ∷ (s ++ lf ∷ []))
      sint16 :
          (z : ℤ) (s : Bytes)
          → Line (parse_signed 16) s z
          → WireValue (Value.sint16 z) (0x07 ∷ (s ++ lf ∷ []))
      sint32 :
          (z : ℤ) (s : Bytes)
          → Line (parse_signed 32) s z
          → WireValue (Value.sint32 z) (0x08 ∷ (s ++ lf ∷ []))
      sint64 :
          (z : ℤ) (s : Bytes)
          → Line (parse_signed 64) s z
          → WireValue (Value.sint64 z) (0x09 ∷ (s ++ lf ∷ []))
      float32 :
          (x : ℕ) (s : Bytes)
          → Line fp.parse_f32 s x
          → WireValue (Value.float32 x) (0x0A ∷ (s ++ lf ∷ []))
      float64 :
          (x : ℕ) (s : Bytes)
          → Line fp.parse_f64 s x
          → WireValue (Value.float64 x) (0x0B ∷ (s ++ lf ∷ []))
      binary :
          (v s : Bytes)
          → Digits 64 s (length v)
          → WireValue (Value.binary v) (0x0C ∷ ((s ++ lf ∷ []) ++ v))
      string :
          (v s : Bytes)
          → Digits 64 s (length v)
          → is_utf8 v ≡ true
          → WireValue (Value.string v) (0x0D ∷ ((s ++ lf ∷ []) ++ v))
      list :
          {vs : Values} {t : Bytes} (s : Bytes)
          → Digits 64 s (count vs)
          → WireValues vs t
          → WireValue (Value.list vs) (0x0E ∷ ((s ++ lf ∷ []) ++ t))

    pub data WireValues : Values → Bytes → Type 0 where
      nil : WireValues Values.nil []
      cons :
          {v : Value} {vs : Values} {s t : Bytes}
          → WireValue v s
          → WireValues vs t
          → WireValues (Values.cons v vs) (s ++ t)

  -- Rows of `size` values each.
  pub data WireRows (size : ℕ) : List Row → Bytes → Type 0 where
    nil : WireRows size [] []
    cons :
        {vs : Values} {rs : List Row} {s t : Bytes}
        → count vs ≡ size
        → WireValues vs s
        → WireRows size rs t
        → WireRows size ((record { values = vs }) ∷ rs) (s ++ t)

  -- A response and its bytes. An error code has two bytes, the low one first.
  pub data WireResponse : Response → Bytes → Type 0 where
    value : {v : Value} {s : Bytes} → WireValue v s → WireResponse (Response.value v) s
    error : (lo hi : ℕ) → WireResponse (Response.error (from_le_bytes lo hi)) (0x10 ∷ lo ∷ hi ∷ [])
    row :
        {vs : Values} {t : Bytes} (s : Bytes)
        → Digits 64 s (count vs)
        → WireValues vs t
        → WireResponse (Response.row (record { values = vs })) (0x11 ∷ ((s ++ lf ∷ []) ++ t))
    empty : WireResponse Response.empty (0x12 ∷ [])
    rows :
        {rs : List Row} {t : Bytes} (size : ℕ) (s₀ s₁ : Bytes)
        → Digits 64 s₀ (length rs)
        → Digits 64 s₁ size
        → WireRows size rs t
        → WireResponse (Response.rows rs) (0x13 ∷ ((s₀ ++ lf ∷ []) ++ ((s₁ ++ lf ∷ []) ++ t)))

  -- Responses, one behind the other.
  pub data WireResponses : List Response → Bytes → Type 0 where
    nil : WireResponses [] []
    cons :
        {r : Response} {rs : List Response} {s t : Bytes}
        → WireResponse r s
        → WireResponses rs t
        → WireResponses (r ∷ rs) (s ++ t)
