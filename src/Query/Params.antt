-- ===== src/Query/Params.antt =====
-- The encoding of parameters by `SQParam` of src/query.rs, as bytes that do not depend on the buffer.
use client_rust.Prelude.{
  ℕ, ◌+◌, ◌≡◌, refl, sym, ap, ◌∙◌, Bytes, List, [], ◌∷◌, ◌++◌, append_assoc, append-nil, length,
  length-append, take-append, take_all, drop-append, drop_all, arith, lf,
}
use native.Mathlib.Nat.{zero-add, add-zero, add_assoc}
use client_rust.Itoa.{Itoa}
use client_rust.Query.{
  Query, new, query_str, SqParam, SqParams, none, some, null, bool, uint, sint, float, bin, str,
  q_list, fields, nil, cons, as_u8, list_sym_open, list_sym_close, FloatText, pushlen, append_param,
  append_items, append_fields, push_param, push_params, query,
}
use client_rust.Query.Packet.{IsValid, params}

module _ (itoa : Itoa) (float_text : FloatText) where
  -- The bytes of a parameter, and how many parameters it stands for.
  unfoldable mutual
    pub encode : SqParam → Bytes
    encode none = 0 ∷ []
    encode (some e) = encode e
    encode null = 0 ∷ []
    encode (bool b) = 1 ∷ as_u8 b ∷ []
    encode (uint n) = 2 ∷ (itoa.format n ++ lf ∷ [])
    encode (sint z) = 3 ∷ (itoa.format_signed z ++ lf ∷ [])
    encode (float x) = 4 ∷ (float_text x ++ lf ∷ [])
    encode (bin s) = 5 ∷ (itoa.format (length s) ++ lf ∷ s)
    encode (str s) = 6 ∷ (itoa.format (length s) ++ lf ∷ s)
    encode (q_list l) = list_sym_open ∷ (encode_all l ++ list_sym_close ∷ [])
    encode (fields l) = encode_all l

    pub encode_all : SqParams → Bytes
    encode_all nil = []
    encode_all (cons p ps) = encode p ++ encode_all ps

  unfoldable mutual
    pub places : SqParam → ℕ
    places (some e) = places e
    places (fields l) = places_all l
    places _ = 1

    pub places_all : SqParams → ℕ
    places_all nil = 0
    places_all (cons p ps) = places p + places_all ps

  mutual
    unfolding append_param encode places pushlen

    append-encode :
        (p : SqParam) (buf : Bytes)
        → append_param itoa float_text p buf ≡ (buf ++ encode p, places p)
    append-encode none buf = refl
    append-encode (some e) buf = append-encode e buf
    append-encode null buf = refl
    append-encode (bool b) buf = refl
    append-encode (uint n) buf = simp append_assoc
    append-encode (sint z) buf = simp append_assoc
    append-encode (float x) buf = simp append_assoc
    append-encode (bin s) buf = simp append_assoc
    append-encode (str s) buf = simp append_assoc
    append-encode (q_list l) buf = simp (items-encode l, append_assoc)
    append-encode (fields l) buf = fields-encode l buf 0 ∙ rw zero-add

    items-encode :
        (l : SqParams) (buf : Bytes) → append_items itoa float_text l buf ≡ buf ++ encode_all l
    items-encode nil buf = sym (append-nil buf)
    items-encode (cons p ps) buf = simp (append-encode p, items-encode ps, append_assoc)

    fields-encode :
        (l : SqParams) (buf : Bytes) (size : ℕ)
        → append_fields itoa float_text l buf size ≡ (buf ++ encode_all l, size + places_all l)
    fields-encode nil buf size = rw (append-nil buf, add-zero size)
    fields-encode (cons p ps) buf size = rw (
      append-encode p buf,
      fields-encode ps (buf ++ encode p) (size + places p),
      append_assoc buf (encode p) (encode_all ps),
      add_assoc size (places p) (places_all ps),
    )

  -- Every parameter is appended to the buffer as its encoding, whatever the buffer holds, and is counted
  -- as the places that it fills: one, or those of its fields together.
  pub append_param-encode :
      (p : SqParam) (buf : Bytes) → append_param itoa float_text p buf ≡ (buf ++ encode p, places p)
  append_param-encode p buf = append-encode p buf

  -- All the arguments of `query!`.
  abbrev pub encode_list : List SqParam → Bytes
  encode_list [] = []
  encode_list (p ∷ ps) = encode p ++ encode_list ps

  abbrev pub places_list : List SqParam → ℕ
  places_list [] = 0
  places_list (p ∷ ps) = places p + places_list ps

  push_params_lem :
      (ps : List SqParam) (q : Query)
      → push_params itoa float_text ps q ≡ record {
        buf = q.buf ++ encode_list ps;
        param_cnt = q.param_cnt + places_list ps;
        q_window = q.q_window;
      }
  unfolding push_params push_param
  push_params_lem [] q = rw (append-nil q.buf, add-zero q.param_cnt)
  push_params_lem (p ∷ ps) q = rw (
    append-encode p q.buf,
    push_params_lem ps _,
    append_assoc q.buf (encode p) (encode_list ps),
    add_assoc q.param_cnt (places p) (places_list ps),
  )

  -- `query!` keeps the text apart from its arguments: the query string is the text, the rest of the
  -- buffer is the encodings of the arguments in their order, and the count is the sum of their places.
  pub query_lem :
      (text : Bytes) (ps : List SqParam)
      → let q = query itoa float_text text ps in
        (query_str q ≡ text)
        × (params q ≡ encode_list ps)
        × (q.param_cnt ≡ places_list ps)
        × IsValid q
  unfolding query query_str new
  query_lem text ps = rw (push_params_lem ps (new text)) (
    take-append (length text) text (encode_list ps) (omega arith) ∙ take_all text,
    (drop-append (length text) text (encode_list ps) (omega arith)
        ∙ ap (λ r. r ++ encode_list ps) (drop_all text)),
    omega arith,
    omega (arith, length-append text (encode_list ps)),
  )
