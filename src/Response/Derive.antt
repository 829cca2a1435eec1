-- ===== src/Response/Derive.antt =====
-- What the derive macro `Response` of src/sky-derive/src/lib.rs generates for a structure with named
-- fields.
use client_rust.Prelude.{ℕ, ◌≡◌, ◌≢◌, Option, none, some, List, [], ◌∷◌, map, All}
use client_rust.Error.{ClientResult, ok}
use client_rust.Response.{Values, nil, cons, Row, Response}
use client_rust.Response.Types.{ValueType, ValueOf, TupleOf, of_row, tuple}
use client_rust.Response.Parse as Parse
use client_rust.Response.Parse.{and_then}
use client_rust.Response.RoundTrip.{to_value}

-- An identifier is compared by `dec_eq`.
module _ {Ident : Type 0} (dec_eq : (a b : Ident) → Dec (a ≡ b)) where
  -- The declaration of a field: its name and its type.
  abbrev pub FieldDecl : Type 0
  FieldDecl = Ident × ValueType

  -- A field, or a variable of the pattern, with its type and value.
  abbrev pub Field : Type 0
  Field = Ident × ((t : ValueType) × ValueOf t)

  -- `tuple_pattern`: the variables, named as the fields and in the order of their declaration. A variable
  -- has the type of the field that it initialises.
  unfoldable pub tuple_pattern : List FieldDecl → List FieldDecl
  tuple_pattern [] = []
  tuple_pattern (field ∷ fields) = field ∷ tuple_pattern fields

  -- `let #tuple_pattern = values`: what it binds.
  unfoldable pub bind_pattern : (vars : List FieldDecl) → TupleOf (map (λ v. v.1) vars) → List Field
  bind_pattern [] values = []
  bind_pattern ((name, t) ∷ vars) (x, values) = (name, (t, x)) ∷ bind_pattern vars values

  -- The value of a variable.
  unfoldable pub variable : Ident → List Field → Option ((t : ValueType) × ValueOf t)
  variable name [] = none
  variable name ((other, x) ∷ scope) = elim (dec_eq name other) [
    | yes same ↦ some x
    | no different ↦ variable name scope
  ]

  -- `struct_instantiation`, `Self { #(#field_names),* }`: each field takes the value of the variable of
  -- its name; `none` is a variable that is not in scope.
  unfoldable pub struct_instantiation : List FieldDecl → List Field → Option (List Field)
  struct_instantiation [] scope = some []
  struct_instantiation ((name, t) ∷ fields) scope = elim (variable name scope) [
    | none ↦ none
    | some x ↦ elim (struct_instantiation fields scope) [
      | none ↦ none
      | some self ↦ some ((name, x) ∷ self)
    ]
  ]

  -- The structure that is made of the values; `none` is code that does not compile.
  unfoldable pub build :
      (fields : List FieldDecl)
      → TupleOf (map (λ v. v.1) (tuple_pattern fields))
      → Option (List Field)
  build fields values = struct_instantiation fields (bind_pattern (tuple_pattern fields) values)

  module _ (fields : List FieldDecl) where
    -- The types of the tuple, which the compiler finds from the variables.
    abbrev pub pattern_types : List ValueType
    pattern_types = map (λ v. v.1) (tuple_pattern fields)

    abbrev pub instantiated : TupleOf pattern_types → Option (ClientResult (List Field))
    instantiated values = elim (build fields values) [ none ↦ none | some self ↦ some (ok self) ]

    -- `impl FromResponse for #name`.
    unfoldable pub from_response : ℕ → Response → Option (ClientResult (List Field))
    from_response f resp =
        and_then (Parse.from_response f (of_row (tuple pattern_types)) resp) instantiated

    -- `impl FromRow for #name`.
    unfoldable pub from_row : ℕ → Row → Option (ClientResult (List Field))
    from_row f row = and_then (Parse.from_row f (tuple pattern_types) row) instantiated

  -- The declaration of the fields of a structure, and the types and values that they hold.
  abbrev pub decls : List Field → List FieldDecl
  decls [] = []
  decls ((name, (t, x)) ∷ self) = (name, t) ∷ decls self

  abbrev pub types : List Field → List ValueType
  types [] = []
  types ((name, (t, x)) ∷ self) = t ∷ types self

  abbrev pub field_values : List Field → Values
  field_values [] = nil
  field_values ((name, (t, x)) ∷ self) = cons (to_value t x) (field_values self)

  -- The row that the server sends for the fields in their order.
  abbrev pub row_of : List Field → Row
  row_of self = record { values = field_values self }

  -- No two fields have one name.
  abbrev pub Distinct : List Field → Type 0
  Distinct [] = Unit
  Distinct ((name, x) ∷ self) = All (λ field. field.0 ≢ name) self × Distinct self

  tuple_of : (self : List Field) → TupleOf (map (λ v. v.1) (tuple_pattern (decls self)))
  unfolding tuple_pattern
  tuple_of [] = tt
  tuple_of ((name, (t, x)) ∷ self) = (x, tuple_of self)

  -- A field's variable is in scope with its value.
  abbrev Bound : List Field → Field → Type 0
  Bound scope field = variable field.0 scope ≡ some field.1
