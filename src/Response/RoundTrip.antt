-- ===== src/Response/RoundTrip.antt =====
-- The conversions of src/response.rs beside the values that a type is sent as.
use client_rust.Prelude.{
  ℕ, zero, suc, ◌≤◌, ◌≡◌, ◌≢◌, refl, ◌∙◌, Option, none, some, List, [], ◌∷◌, ◌++◌, map, length,
  append_assoc, append-nil, ◌==◌, true, arith,
}
use client_rust.Error.{ok}
use client_rust.Response.{Value, Values, null, nil, cons, count, Row, Response}
use client_rust.Response.Types.{
  Direct, ValueType, direct, value, option, r_list, tuple, rows, DirectOf, ValueOf, TupleOf,
}
use client_rust.Response.Parse.{
  capture, from_values, from_list, from_value, from_tuple, from_row, from_rows, from_response,
}
use client_rust.Error.{ClientResult}

-- The value that the server sends for a value of a type.
unfoldable pub direct_value : (t : Direct) → DirectOf t → Value
direct_value Direct.bool b = Value.bool b
direct_value Direct.uint8 n = Value.uint8 n
direct_value Direct.uint16 n = Value.uint16 n
direct_value Direct.uint32 n = Value.uint32 n
direct_value Direct.uint64 n = Value.uint64 n
direct_value Direct.sint8 z = Value.sint8 z
direct_value Direct.sint16 z = Value.sint16 z
direct_value Direct.sint32 z = Value.sint32 z
direct_value Direct.sint64 z = Value.sint64 z
direct_value Direct.float32 x = Value.float32 x
direct_value Direct.float64 x = Value.float64 x
direct_value Direct.binary s = Value.binary s
direct_value Direct.string s = Value.string s
direct_value Direct.list vs = Value.list vs

abbrev pub vector : List Value → Values
vector [] = nil
vector (v ∷ vs) = cons v (vector vs)

unfoldable pub to_value : (t : ValueType) → ValueOf t → Value
to_value (direct t) x = direct_value t x
to_value value v = v
to_value (option t) none = null
to_value (option t) (some x) = to_value t x
to_value (r_list t) xs = Value.list (vector (map (to_value t) xs))

abbrev pub tuple_values : (ts : List ValueType) → TupleOf ts → Values
tuple_values [] xs = nil
tuple_values (t ∷ ts) (x, xs) = cons (to_value t x) (tuple_values ts xs)

abbrev pub to_row : (ts : List ValueType) → TupleOf ts → Row
to_row ts xs = record { values = tuple_values ts xs }

-- A type without an `Option`.
abbrev pub Plain : ValueType → Type 0
Plain (direct t) = Unit
Plain value = Unit
Plain (option t) = ⊥
Plain (r_list t) = Plain t

-- The nested calls that a type takes.
abbrev pub depth : ValueType → ℕ
depth (direct t) = 1
depth value = 1
depth (option t) = suc (depth t)
depth (r_list t) = suc (depth t)

abbrev pub Parses : ℕ → List ValueType → Type 0
Parses f [] = Unit
Parses f (t ∷ ts) = (Plain t × (depth t ≤ f)) × Parses f ts

capture-direct_value : (t : Direct) (x : DirectOf t) → capture t (direct_value t x) ≡ some x
unfolding capture direct_value
capture-direct_value Direct.bool x = refl
capture-direct_value Direct.uint8 x = refl
capture-direct_value Direct.uint16 x = refl
capture-direct_value Direct.uint32 x = refl
capture-direct_value Direct.uint64 x = refl
capture-direct_value Direct.sint8 x = refl
capture-direct_value Direct.sint16 x = refl
capture-direct_value Direct.sint32 x = refl
capture-direct_value Direct.sint64 x = refl
capture-direct_value Direct.float32 x = refl
capture-direct_value Direct.float64 x = refl
capture-direct_value Direct.binary x = refl
capture-direct_value Direct.string x = refl
capture-direct_value Direct.list x = refl

from_values-map :
    {A : Type 0} (parse : Value → Option (ClientResult A)) (g : A → Value) (ret xs : List A)
    → ((x : A) → parse (g x) ≡ some (ok x))
    → from_values parse ret (vector (map g xs)) ≡ some (ok (ret ++ xs))
unfolding from_values
from_values-map parse g ret [] h = rw (append-nil ret)
from_values-map parse g ret (x ∷ xs) h =
    rw (h x, from_values-map parse g (ret ++ x ∷ []) xs h, append_assoc ret (x ∷ []) xs)

pub from_value-to_value :
    (f : ℕ) (t : ValueType) (x : ValueOf t)
    → Plain t
    → depth t ≤ f
    → from_value f t (to_value t x) ≡ some (ok x)
unfolding from_value to_value from_list
from_value-to_value zero (direct t) x p h = absurd (omega arith)
from_value-to_value zero value x p h = absurd (omega arith)
from_value-to_value zero (option t) x p h = absurd p
from_value-to_value zero (r_list t) x p h = absurd (omega arith)
from_value-to_value (suc f) (direct t) x p h = rw (capture-direct_value t x)
from_value-to_value (suc f) value x p h = refl
from_value-to_value (suc f) (option t) x p h = absurd p
from_value-to_value (suc f) (r_list t) xs p h =
    from_values-map (from_value f t) (to_value t) [] xs
      (λ x. from_value-to_value f t x p (omega arith))

count-tuple_values :
    (ts : List ValueType) (xs : TupleOf ts) → count (tuple_values ts xs) ≡ length ts
count-tuple_values [] xs = refl
count-tuple_values (t ∷ ts) (x, xs) = rw (count-tuple_values ts xs)

from_tuple-tuple_values :
    (f : ℕ) (ts : List ValueType) (xs : TupleOf ts)
    → Parses f ts
    → from_tuple f ts (tuple_values ts xs) ≡ some (ok xs)
unfolding from_tuple
from_tuple-tuple_values f [] xs p = refl
from_tuple-tuple_values f (t ∷ ts) (x, xs) ((p, h), ps) =
    rw (from_value-to_value f t x p h, from_tuple-tuple_values f ts xs ps)

pub from_row-to_row :
    (f : ℕ) (ts : List ValueType) (xs : TupleOf ts)
    → Parses f ts
    → from_row f (tuple ts) (to_row ts xs) ≡ some (ok xs)
unfolding from_row
from_row-to_row f ts xs p =
    let all : (count (tuple_values ts xs) == length ts) ≡ true =
      ground (arith, count-tuple_values ts xs) in
    rw (from_row, all, from_tuple-tuple_values f ts xs p)

from_rows-map :
    (f : ℕ) (ts : List ValueType) (ret xss : List (TupleOf ts))
    → Parses f ts
    → from_rows f (tuple ts) ret (map (to_row ts) xss) ≡ some (ok (ret ++ xss))
unfolding from_rows
from_rows-map f ts ret [] p = rw (append-nil ret)
from_rows-map f ts ret (xs ∷ xss) p = rw (
  from_row-to_row f ts xs p,
  from_rows-map f ts (ret ++ xs ∷ []) xss p,
  append_assoc ret (xs ∷ []) xss,
)

-- Rows of typed columns are parsed into `Rows` of the tuples that they were made of, all of them and in
-- their order, when no column's type is an `Option` or holds one; the fuel is as large as the depth of
-- each column's type.
pub from_response-to_row :
    (f : ℕ) (ts : List ValueType) (xss : List (TupleOf ts))
    → Parses f ts
    → from_response f (rows (tuple ts)) (Response.rows (map (to_row ts) xss)) ≡ some (ok xss)
unfolding from_response
from_response-to_row f ts xss p = from_rows-map f ts [] xss p

from_value_again :
    (f : ℕ) (t : ValueType) (v : Value)
    → v ≢ null
    → from_value (suc f) (option t) v ≡ from_value f (option t) v
unfolding from_value
from_value_again f t null h = absurd (h refl)
from_value_again f t (Value.bool x) h = refl
from_value_again f t (Value.uint8 x) h = refl
from_value_again f t (Value.uint16 x) h = refl
from_value_again f t (Value.uint32 x) h = refl
from_value_again f t (Value.uint64 x) h = refl
from_value_again f t (Value.sint8 x) h = refl
from_value_again f t (Value.sint16 x) h = refl
from_value_again f t (Value.sint32 x) h = refl
from_value_again f t (Value.sint64 x) h = refl
from_value_again f t (Value.float32 x) h = refl
from_value_again f t (Value.float64 x) h = refl
from_value_again f t (Value.binary x) h = refl
from_value_again f t (Value.string x) h = refl
from_value_again f t (Value.list x) h = refl

-- Parsing a value that is not null as an `Option` has no end: no number of nested calls gives a result,
-- whatever the inner type is.
pub from_value-option :
    (f : ℕ) (t : ValueType) (v : Value) → v ≢ null → from_value f (option t) v ≡ none
from_value-option zero t v h = unfold from_value in refl
from_value-option (suc f) t v h = from_value_again f t v h ∙ from_value-option f t v h
