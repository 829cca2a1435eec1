-- ===== src/Response/First.antt =====
-- `Row::into_first` and `Row::into_first_as` of src/response.rs.
use client_rust.Prelude.{ℕ, ◌≤◌, ◌≡◌, ◌↔◌, arith, refl, Option, some, List, ◌∷◌}
use client_rust.Error.{ClientResult, ok, err, parse_error, response_mismatch}
use client_rust.Response.{Value, Values, nil, cons, count, Row}
use client_rust.Response.Types.{ValueType, ValueOf, TupleOf}
use client_rust.Response.Parse.{and_then, from_value}
use client_rust.Response.RoundTrip.{Plain, depth, to_row, to_value, from_value-to_value}

abbrev first : Values → ClientResult Value
first nil = err (parse_error response_mismatch)
first (cons v vs) = ok v

first_refused : (vs : Values) → (first vs ≡ err (parse_error response_mismatch)) ↔ (count vs ≡ 0)
first_refused nil = (λ h. refl, λ h. refl)
first_refused (cons v vs) = (λ h. cc, λ h. absurd (omega arith))

unfoldable pub into_first : Row → ClientResult Value
into_first self = first self.values

unfoldable pub into_first_as : ℕ → (t : ValueType) → Row → Option (ClientResult (ValueOf t))
into_first_as f t self = and_then (some (into_first self)) (from_value f t)

-- The first element of a tuple.
abbrev pub first_of : (t : ValueType) (ts : List ValueType) → TupleOf (t ∷ ts) → ValueOf t
first_of t ts (x, xs) = x

-- The first value of a row is parsed to the first element of the tuple that the row was made of, whatever
-- the types of the other columns, and the value itself is given without parsing; a row is refused, as a
-- mismatch of the response, exactly when it has no value. It is asked that the type of the first column is no
-- `Option` and holds none, with fuel for its depth.
pub into_first_as-to_row :
    (f : ℕ) (t : ValueType) (ts : List ValueType) (xs : TupleOf (t ∷ ts)) (r : Row)
    → Plain t
    → depth t ≤ f
    → (into_first_as f t (to_row (t ∷ ts) xs) ≡ some (ok (first_of t ts xs)))
      × (into_first (to_row (t ∷ ts) xs) ≡ ok (to_value t (first_of t ts xs)))
      × ((into_first r ≡ err (parse_error response_mismatch)) ↔ (count r.values ≡ 0))
unfolding into_first_as into_first
into_first_as-to_row f t ts (x, xs) r p h =
    (from_value-to_value f t x p h, refl, first_refused r.values)
