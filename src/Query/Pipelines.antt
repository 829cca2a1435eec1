-- ===== src/Query/Pipelines.antt =====
-- A reader for the buffer of the `Pipeline` of src/query.rs.
use client_rust.Prelude.{
  ℕ, zero, suc, ◌+◌, ◌-◌, ◌≡◌, refl, sym, ap, Bytes, Option, none, some, List, [], ◌∷◌, ◌++◌, map,
  length, length-drop, append_assoc, append-nil, drop, arith, lf, All,
}
use native.Mathlib.Nat.{add-zero}
use client_rust.Itoa.{Itoa}
use client_rust.Query.{Query, query_str, Pipeline, empty, push, extend}
use client_rust.Query.Packet.{IsValid, params}
use client_rust.Query.Wire.{
  read_line, split_at, read_line-magnitude, split_at-append, split_at-length,
}

infixl 5 ◌>>=◌
abbrev ◌>>=◌ : {A B : Type 0} → Option A → (A → Option B) → Option B
none >>= f = none
some a >>= f = f a

-- One query `<text length>\n<parameter length>\n<text><parameters>`, and what follows it.
pub read_query : Bytes → Option ((Bytes × Bytes) × Bytes)
read_query s = read_line 0 s >>= λ (qlen, s₁). read_line 0 s₁ >>= λ (plen, s₂).
    split_at qlen s₂ >>= λ (text, s₃). split_at plen s₃ >>= λ (ps, rest). some ((text, ps), rest)

pub read_queries : ℕ → Bytes → Option (List (Bytes × Bytes) × Bytes)
read_queries zero s = some ([], s)
read_queries (suc n) s =
    read_query s >>= λ (q, s₁). read_queries n s₁ >>= λ (qs, rest). some (q ∷ qs, rest)

abbrev pub parts : Query → Bytes × Bytes
parts q = (query_str q, params q)

module _ (itoa : Itoa) where
  encode : Query → Bytes
  encode q = itoa.format q.q_window ++ lf ∷ (itoa.format (length q.buf - q.q_window) ++ lf ∷ q.buf)

  encode_all : List Query → Bytes
  unfolding encode
  encode_all [] = []
  encode_all (q ∷ qs) = encode q ++ encode_all qs

  push-encode :
      (q : Query) (p : Pipeline)
      → push itoa q p ≡ record { cnt = p.cnt + 1; buf = p.buf ++ encode q }
  unfolding push encode
  push-encode q p = ap (λ b. record { cnt = p.cnt + 1; buf = b }) (simp (append_assoc))

  extend-encode :
      (qs : List Query) (p : Pipeline)
      → extend itoa qs p ≡ record { cnt = p.cnt + length qs; buf = p.buf ++ encode_all qs }
  unfolding extend encode_all
  extend-encode [] p = rw (append-nil p.buf, add-zero p.cnt)
  extend-encode (q ∷ qs) p =
      rw
        (
          push-encode q p,
          extend-encode qs (record { cnt = p.cnt + 1; buf = p.buf ++ encode q }),
          append_assoc p.buf (encode q) (encode_all qs),
        )
        (ap (λ n. record { cnt = n; buf = p.buf ++ (encode q ++ encode_all qs) }) (omega arith))

  read_query-encode :
      (q : Query) (rest : Bytes) → IsValid q → read_query (encode q ++ rest) ≡ some (parts q, rest)
  unfolding read_query encode query_str
  read_query-encode q rest v =
      let plen = length q.buf - q.q_window in
      rw
        (
          append_assoc (itoa.format q.q_window) (lf ∷ (itoa.format plen ++ lf ∷ q.buf)) rest,
          append_assoc (itoa.format plen) (lf ∷ q.buf) rest,
          read_line-magnitude (itoa.format q.q_window) q.q_window
              (itoa.format plen ++ lf ∷ (q.buf ++ rest)) (itoa.format_value q.q_window),
          read_line-magnitude (itoa.format plen) plen (q.buf ++ rest) (itoa.format_value plen),
          split_at-append q.q_window q.buf rest v,
        )
        (rw (sym (length-drop q.q_window q.buf), split_at-length (drop q.q_window q.buf) rest) refl)

  read_queries-encode_all :
      (qs : List Query) (rest : Bytes)
      → All IsValid qs
      → read_queries (length qs) (encode_all qs ++ rest) ≡ some (map parts qs, rest)
  unfolding read_queries encode_all
  read_queries-encode_all [] rest v = refl
  read_queries-encode_all (q ∷ qs) rest v = rw (
    append_assoc (encode q) (encode_all qs) rest,
    read_query-encode q (encode_all qs ++ rest) v.0,
    read_queries-encode_all qs rest v.1,
  )

  -- The buffer of a pipeline made of queries is read back as these queries, text and parameters, in
  -- their order, with nothing of what follows it, and the pipeline counts them; each query's window is
  -- asked to lie within its buffer.
  pub read_queries-extend :
      (qs : List Query) (rest : Bytes)
      → All IsValid qs
      → (read_queries (length qs) ((extend itoa qs empty).buf ++ rest) ≡ some (map parts qs, rest))
        × ((extend itoa qs empty).cnt ≡ length qs)
  read_queries-extend qs rest v =
      rw (extend-encode qs empty) (read_queries-encode_all qs rest v, omega arith)
