-- ===== src/Tests/Parameters.antt =====
-- The theorem about the reading of parameters at a concrete input.
use client_rust.Prelude.{◌≡◌, refl, List, [], ◌∷◌, ◌++◌, some, length, codes, true}
use client_rust.Std.{negsuc}
use client_rust.Itoa.Decimal.{decimal_itoa}
use client_rust.Query as Queries
use client_rust.Query.{Float, SqParam, nil, cons, FloatText}
use client_rust.Query.Packet.{params}
use client_rust.Query.Read.{read_tokens, tokens_list}
use client_rust.Query.Read.Spells.{read_tokens-query}

abbrev arguments : List SqParam
arguments =
    SqParam.str (codes "sayan")
    ∷ SqParam.sint (negsuc 4)
    ∷ SqParam.float (Float.f64 7)
    ∷ SqParam.fields
        (cons (SqParam.bool true) (cons (SqParam.q_list (cons (SqParam.uint 20) nil)) nil))
    ∷ []

-- Every float is printed alike.
abbrev zero_text : FloatText
zero_text = λ _. codes "0"

read_tokens-query_example :
    read_tokens (length (tokens_list zero_text arguments)) (
      params (Queries.query decimal_itoa zero_text (codes "insert into t") arguments)
      ++ codes "next")
    ≡ some (tokens_list zero_text arguments, codes "next")
read_tokens-query_example =
    read_tokens-query decimal_itoa zero_text (λ x. (refl, tt)) (codes "insert into t") arguments
      (codes "next")
