-- ===== src/Response.antt =====
-- src/response.rs: the values and responses that the server returns. A `Vec<Value>` is `Values`.
pub mod Types
pub mod Parse
pub mod RoundTrip
pub mod First
pub mod Derive
use client_rust.Prelude.{ℕ, suc, Bytes, Bool, List}
use client_rust.Std.{ℤ}

-- `enum Value`. Integers are numbers, a float is its bit pattern, a text is its bytes.
mutual
  pub data Value : Type 0 where
    null : Value
    bool : Bool → Value
    uint8 : ℕ → Value
    uint16 : ℕ → Value
    uint32 : ℕ → Value
    uint64 : ℕ → Value
    sint8 : ℤ → Value
    sint16 : ℤ → Value
    sint32 : ℤ → Value
    sint64 : ℤ → Value
    float32 : ℕ → Value
    float64 : ℕ → Value
    binary : Bytes → Value
    string : Bytes → Value
    list : Values → Value

  pub data Values : Type 0 where
    nil : Values
    cons : Value → Values → Values

-- `Vec::len` and `Vec::push`.
abbrev pub count : Values → ℕ
count nil = 0
count (cons v vs) = suc (count vs)

abbrev pub push : Values → Value → Values
push nil w = cons w nil
push (cons v vs) w = cons v (push vs w)

-- `struct Row`.
pub record Row : Type 0 where
  pub values : Values

-- `enum Response`.
pub data Response : Type 0 where
  empty : Response
  value : Value → Response
  row : Row → Response
  rows : List Row → Response
  error : ℕ → Response
