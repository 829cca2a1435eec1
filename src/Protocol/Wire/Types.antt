-- ===== src/Protocol/Wire/Types.antt =====
-- The types of src/response.rs that hold what has been read: their ranges.
use client_rust.Prelude.{ℕ, ◌^◌, ◌<◌, ◌≡◌, true, All, List, Bytes, length, arith}
use client_rust.Std.{FloatParse, is_utf8, InRange, parse_signed-InRange}
use client_rust.Response.{
  Value, Values, uint8, uint16, uint32, uint64, sint8, sint16, sint32, sint64, binary, string, list,
  nil, cons, count, Row, Response, value, row, rows, empty, error,
}
use client_rust.Protocol.Wire.{WireValue, WireValues, WireRows, WireResponse}

-- A value that its Rust type can hold, with a text that is valid UTF-8; a vector has a length of 64 bits. Any
-- bit pattern is a float.
abbrev mutual
  pub Typed : Value → Type 0
  Typed (uint8 n) = n < 2 ^ 8
  Typed (uint16 n) = n < 2 ^ 16
  Typed (uint32 n) = n < 2 ^ 32
  Typed (uint64 n) = n < 2 ^ 64
  Typed (sint8 z) = InRange 8 z
  Typed (sint16 z) = InRange 16 z
  Typed (sint32 z) = InRange 32 z
  Typed (sint64 z) = InRange 64 z
  Typed (binary v) = length v < 2 ^ 64
  Typed (string v) = (length v < 2 ^ 64) × (is_utf8 v ≡ true)
  Typed (list vs) = (count vs < 2 ^ 64) × TypedAll vs
  Typed _ = Unit

  pub TypedAll : Values → Type 0
  TypedAll nil = Unit
  TypedAll (cons v vs) = Typed v × TypedAll vs

-- Rows of one size.
abbrev pub TypedRow : ℕ → Row → Type 0
TypedRow size r = (count r.values ≡ size) × TypedAll r.values

abbrev pub TypedResponse : Response → Type 0
TypedResponse (value v) = Typed v
TypedResponse (error e) = e < 2 ^ 16
TypedResponse (row r) = (count r.values < 2 ^ 64) × TypedAll r.values
TypedResponse empty = Unit
TypedResponse (rows rs) =
    (length rs < 2 ^ 64) × (size : ℕ) × (size < 2 ^ 64) × All (TypedRow size) rs

module _ (fp : FloatParse) where
  mutual
    WireValue-Typed : {v : Value} {s : Bytes} → WireValue fp v s → Typed v
    WireValue-Typed WireValue.null = tt
    WireValue-Typed (WireValue.bool b) = tt
    WireValue-Typed (WireValue.uint8 n s h) = h.1
    WireValue-Typed (WireValue.uint16 n s h) = h.1
    WireValue-Typed (WireValue.uint32 n s h) = h.1
    WireValue-Typed (WireValue.uint64 n s h) = h.1
    WireValue-Typed (WireValue.sint8 z s h) = parse_signed-InRange 8 s z h.0
    WireValue-Typed (WireValue.sint16 z s h) = parse_signed-InRange 16 s z h.0
    WireValue-Typed (WireValue.sint32 z s h) = parse_signed-InRange 32 s z h.0
    WireValue-Typed (WireValue.sint64 z s h) = parse_signed-InRange 64 s z h.0
    WireValue-Typed (WireValue.float32 x s h) = tt
    WireValue-Typed (WireValue.float64 x s h) = tt
    WireValue-Typed (WireValue.binary v s h) = h.1
    WireValue-Typed (WireValue.string v s h valid) = (h.1, valid)
    WireValue-Typed (WireValue.list s h wire) = (h.1, WireValues-TypedAll wire)

    WireValues-TypedAll : {vs : Values} {s : Bytes} → WireValues fp vs s → TypedAll vs
    WireValues-TypedAll WireValues.nil = tt
    WireValues-TypedAll (WireValues.cons w ws) = (WireValue-Typed w, WireValues-TypedAll ws)

  WireRows-TypedRow :
      {size : ℕ} {rs : List Row} {s : Bytes} → WireRows fp size rs s → All (TypedRow size) rs
  WireRows-TypedRow WireRows.nil = tt
  WireRows-TypedRow (WireRows.cons e w ws) = ((e, WireValues-TypedAll w), WireRows-TypedRow ws)

  pub WireResponse-TypedResponse :
      {r : Response} {s : Bytes} → WireResponse fp r s → All (λ c. c < 256) s → TypedResponse r
  WireResponse-TypedResponse (WireResponse.value w) b = WireValue-Typed w
  WireResponse-TypedResponse (WireResponse.error lo hi) b = omega (arith, b.1.0, b.1.1.0)
  WireResponse-TypedResponse (WireResponse.row s h w) b = (h.1, WireValues-TypedAll w)
  WireResponse-TypedResponse WireResponse.empty b = tt
  WireResponse-TypedResponse (WireResponse.rows size s₀ s₁ h₀ h₁ w) b =
      (h₀.1, size, h₁.1, WireRows-TypedRow w)
