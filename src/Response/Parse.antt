-- ===== src/Response/Parse.antt =====
-- The implementations of `FromValue`, `FromRow` and `FromResponse`. A call of `from_value` may have no
-- end: its fuel is the number of nested calls, and `none` says that they went deeper.
use client_rust.Prelude.{
  ℕ, zero, suc, Option, none, some, List, [], ◌∷◌, ◌++◌, length, ◌==◌, true, false,
}
use client_rust.Error.{
  ClientResult, ok, err, server_error, parse_error, type_mismatch, response_mismatch,
}
use client_rust.Response.{Value, Values, null, nil, cons, count, Row, Response, empty, error}
use client_rust.Response.Types.{
  Direct, ValueType, direct, value, option, r_list, RowType, tuple, ResponseType, unit, of_value,
  of_row, row_vec, DirectOf, ValueOf, TupleOf, RowOf, ResponseOf,
}
use client_rust.Response.Types as Types

-- A call that may have no end, over what follows it with `?`.
abbrev pub and_then {ℓ κ} :
    {A : Type ℓ} {B : Type κ}
    → Option (ClientResult A)
    → (A → Option (ClientResult B))
    → Option (ClientResult B)
and_then none f = none
and_then (some (ok a)) f = f a
and_then (some (err e)) f = some (err e)

-- The match of `from_response_direct!`: the value of the one variant, or nothing.
unfoldable pub capture : (t : Direct) → Value → Option (DirectOf t)
capture Direct.bool (Value.bool b) = some b
capture Direct.uint8 (Value.uint8 n) = some n
capture Direct.uint16 (Value.uint16 n) = some n
capture Direct.uint32 (Value.uint32 n) = some n
capture Direct.uint64 (Value.uint64 n) = some n
capture Direct.sint8 (Value.sint8 z) = some z
capture Direct.sint16 (Value.sint16 z) = some z
capture Direct.sint32 (Value.sint32 z) = some z
capture Direct.sint64 (Value.sint64 z) = some z
capture Direct.float32 (Value.float32 x) = some x
capture Direct.float64 (Value.float64 x) = some x
capture Direct.binary (Value.binary s) = some s
capture Direct.string (Value.string s) = some s
capture Direct.list (Value.list vs) = some vs
capture _ _ = none

abbrev pub matched : {A : Type 0} → Option A → ClientResult A
matched (some a) = ok a
matched none = err (parse_error type_mismatch)

-- The loop of `RList::from_value`.
unfoldable pub from_values :
    {A : Type 0}
    → (Value → Option (ClientResult A))
    → List A
    → Values
    → Option (ClientResult (List A))
from_values parse ret nil = some (ok ret)
from_values parse ret (cons v vs) = and_then (parse v) λ x. from_values parse (ret ++ x ∷ []) vs

unfoldable pub from_list :
    {A : Type 0} → (Value → Option (ClientResult A)) → Value → Option (ClientResult (List A))
from_list parse (Value.list l) = from_values parse [] l
from_list parse _ = some (err (parse_error type_mismatch))

-- `FromValue::from_value`. For an `Option` that is not null the method calls itself, as the type of its
-- result makes the compiler choose the same implementation.
unfoldable pub from_value : ℕ → (t : ValueType) → Value → Option (ClientResult (ValueOf t))
from_value zero t v = none
from_value (suc f) (direct t) v = some (matched (capture t v))
from_value (suc f) value v = some (ok v)
from_value (suc f) (option t) null = some (ok none)
from_value (suc f) (option t) v = from_value f (option t) v
from_value (suc f) (r_list t) v = from_list (from_value f t) v

-- The expression `(A::from_value(values.next().unwrap())?, ...,)`; `none` stands for a missing value too,
-- which the test of the size excludes.
unfoldable pub from_tuple : ℕ → (ts : List ValueType) → Values → Option (ClientResult (TupleOf ts))
from_tuple f [] vs = some (ok tt)
from_tuple f (t ∷ ts) nil = none
from_tuple f (t ∷ ts) (cons v vs) =
    and_then (from_value f t v) λ x. and_then (from_tuple f ts vs) λ xs. some (ok (x, xs))

-- `FromRow::from_row`.
unfoldable pub from_row : ℕ → (t : RowType) → Row → Option (ClientResult (RowOf t))
from_row f Types.row r = some (ok r)
from_row f (tuple ts) r = elim (count r.values == length ts) [
  | true ↦ from_tuple f ts r.values
  | false ↦ some (err (parse_error type_mismatch))
]

-- The loop of `Rows::from_response`.
unfoldable pub from_rows :
    ℕ → (t : RowType) → List (RowOf t) → List Row → Option (ClientResult (List (RowOf t)))
from_rows f t ret [] = some (ok ret)
from_rows f t ret (r ∷ rs) = and_then (from_row f t r) λ x. from_rows f t (ret ++ x ∷ []) rs

abbrev mismatch : {A : Type 0} → ClientResult A
mismatch = err (parse_error response_mismatch)

-- `from_response` of `()`.
abbrev pub unit_response : Response → ClientResult (Unit {0})
unit_response empty = ok tt
unit_response (error e) = err (server_error e)
unit_response _ = mismatch

-- `from_response` of a type with `FromValue`.
abbrev pub value_response : ℕ → (t : ValueType) → Response → Option (ClientResult (ValueOf t))
value_response f t (Response.value v) = from_value f t v
value_response f t (error e) = some (err (server_error e))
value_response f t _ = some mismatch

-- `from_response` of a tuple: what follows its match is the body of `from_row` too.
abbrev pub tuple_response :
    ℕ → (ts : List ValueType) → Response → Option (ClientResult (TupleOf ts))
tuple_response f ts (Response.row r) = from_row f (tuple ts) r
tuple_response f ts (error e) = some (err (server_error e))
tuple_response f ts _ = some mismatch

-- `from_response` of `Row`.
abbrev pub row_response : Response → ClientResult Row
row_response (Response.row r) = ok r
row_response (error e) = err (server_error e)
row_response _ = mismatch

-- `from_response` of `Vec<Row>`.
abbrev pub row_vec_response : Response → ClientResult (List Row)
row_vec_response (Response.rows rs) = ok rs
row_vec_response (error e) = err (server_error e)
row_vec_response _ = mismatch

-- `from_response` of `Rows<T>`.
abbrev pub rows_response : ℕ → (t : RowType) → Response → Option (ClientResult (List (RowOf t)))
rows_response f t (Response.rows rs) = from_rows f t [] rs
rows_response f t (error e) = some (err (server_error e))
rows_response f t _ = some mismatch

-- `FromResponse::from_response`, by the type.
unfoldable pub from_response :
    ℕ → (t : ResponseType) → Response → Option (ClientResult (ResponseOf t))
from_response f unit resp = some (unit_response resp)
from_response f (of_value t) resp = value_response f t resp
from_response f (of_row Types.row) resp = some (row_response resp)
from_response f (of_row (tuple ts)) resp = tuple_response f ts resp
from_response f row_vec resp = some (row_vec_response resp)
from_response f (Types.rows t) resp = rows_response f t resp
