-- ===== src/Response/Types.antt =====
-- The types that a response can be parsed into: those with `FromValue`, `FromRow` and `FromResponse`.
use client_rust.Prelude.{ℕ, Bytes, Bool, Option, List, [], ◌∷◌}
use client_rust.Std.{ℤ}
use client_rust.Response.{Value, Values, Row}

-- The types of `from_response_direct!`; `Box<[u8]>` and `Box<str>` hold what `Vec<u8>` and `String` hold.
pub data Direct : Type 0 where
  bool : Direct
  uint8 : Direct
  uint16 : Direct
  uint32 : Direct
  uint64 : Direct
  sint8 : Direct
  sint16 : Direct
  sint32 : Direct
  sint64 : Direct
  float32 : Direct
  float64 : Direct
  binary : Direct
  string : Direct
  list : Direct

-- The types with `FromValue`.
pub data ValueType : Type 0 where
  direct : Direct → ValueType
  value : ValueType
  option : ValueType → ValueType
  r_list : ValueType → ValueType

-- The types with `FromRow`: a row, and a tuple.
pub data RowType : Type 0 where
  row : RowType
  tuple : List ValueType → RowType

-- The types with `FromResponse`: the unit, a value, a row type, `Vec<Row>`, and `Rows<T>`.
pub data ResponseType : Type 0 where
  unit : ResponseType
  of_value : ValueType → ResponseType
  of_row : RowType → ResponseType
  row_vec : ResponseType
  rows : RowType → ResponseType

abbrev pub DirectOf : Direct → Type 0
DirectOf bool = Bool
DirectOf uint8 = ℕ
DirectOf uint16 = ℕ
DirectOf uint32 = ℕ
DirectOf uint64 = ℕ
DirectOf sint8 = ℤ
DirectOf sint16 = ℤ
DirectOf sint32 = ℤ
DirectOf sint64 = ℤ
DirectOf float32 = ℕ
DirectOf float64 = ℕ
DirectOf binary = Bytes
DirectOf string = Bytes
DirectOf list = Values

abbrev pub ValueOf : ValueType → Type 0
ValueOf (direct t) = DirectOf t
ValueOf value = Value
ValueOf (option t) = Option (ValueOf t)
ValueOf (r_list t) = List (ValueOf t)

abbrev pub TupleOf : List ValueType → Type 0
TupleOf [] = Unit
TupleOf (t ∷ ts) = ValueOf t × TupleOf ts

abbrev pub RowOf : RowType → Type 0
RowOf row = Row
RowOf (tuple ts) = TupleOf ts

abbrev pub ResponseOf : ResponseType → Type 0
ResponseOf unit = Unit
ResponseOf (of_value t) = ValueOf t
ResponseOf (of_row t) = RowOf t
ResponseOf row_vec = List Row
ResponseOf (rows t) = List (RowOf t)
