-- ===== src/Query/Read.antt =====
-- An independent reader of the parameters that `SQParam` of src/query.rs writes, token by token.
pub mod Spells
use client_rust.Prelude.{
  ℕ, zero, suc, ◌+◌, ◌-◌, ◌≡◌, refl, All, false, Bytes, List, [], ◌∷◌, ◌++◌, Option, none, some,
  Bool-cases, inl, inr, length, append_assoc, length-append, lf, ◌==◌, arith, if◌then◌else◌,
}
use native.Mathlib.Nat.{zero-add, suc-add}
use client_rust.Std.{ℤ, pos, negsuc, negate, is_ascii_digit, parse_digits, parse_magnitude}
use client_rust.Itoa.{Itoa}
use client_rust.Query.{SqParam, SqParams, list_sym_open, list_sym_close, FloatText, as_u8}
use client_rust.Query as Queries
use client_rust.Query.Wire.{read_line, read_line-magnitude, split_at, split_at-length}
use client_rust.Query.Packet.{params}
use client_rust.Query.Params.{encode, encode_all, encode_list, query_lem}

-- A parameter is one token; a list is its items between two; a structure is its fields.
pub data Token : Type 0 where
  null : Token
  bool : ℕ → Token
  uint : ℕ → Token
  sint : ℤ → Token
  float : Bytes → Token
  bin : Bytes → Token
  str : Bytes → Token
  list_open : Token
  list_close : Token

-- What is read, and what follows it.
abbrev pub Reading : Type 0 → Type 0
Reading A = Option (A × Bytes)

abbrev pub and_then : {A B : Type 0} → Reading A → (A → Bytes → Reading B) → Reading B
and_then none k = none
and_then (some (a, r)) k = k a r

-- The bytes before a line feed.
abbrev pub read_text : Bytes → Reading Bytes
read_text [] = none
read_text (c ∷ r) = if c == lf then some ([], r) else and_then (read_text r) λ s t. some (c ∷ s, t)

abbrev pub read_signed : Bytes → Reading ℤ
read_signed [] = none
read_signed (c ∷ r) =
    if c == b'-'
    then and_then (read_line 0 r) (λ n t. some (negate n, t))
    else and_then (read_line 0 (c ∷ r)) (λ n t. some (pos n, t))

abbrev pub read_block : Bytes → Reading Bytes
read_block s = and_then (read_line 0 s) λ n r. split_at n r

abbrev pub read_byte : Bytes → Reading ℕ
read_byte [] = none
read_byte (c ∷ r) = some (c, r)

abbrev pub token_of : {A : Type 0} → (A → Token) → Reading A → Reading Token
token_of f o = and_then o λ a r. some (f a, r)

abbrev pub read_token : Bytes → Reading Token
read_token [] = none
read_token (c ∷ r) =
    if c == 0
    then some (Token.null, r)
    else if c == 1
    then token_of Token.bool (read_byte r)
    else if c == 2
    then token_of Token.uint (read_line 0 r)
    else if c == 3
    then token_of Token.sint (read_signed r)
    else if c == 4
    then token_of Token.float (read_text r)
    else if c == 5
    then token_of Token.bin (read_block r)
    else if c == 6
    then token_of Token.str (read_block r)
    else if c == list_sym_open
    then some (Token.list_open, r)
    else if c == list_sym_close
    then some (Token.list_close, r)
    else none

-- So many tokens.
abbrev pub read_tokens : ℕ → Bytes → Reading (List Token)
read_tokens zero s = some ([], s)
read_tokens (suc k) s =
    and_then (read_token s) λ t r. and_then (read_tokens k r) λ ts u. some (t ∷ ts, u)

module _ (float_text : FloatText) where
  -- The tokens of a parameter.
  abbrev mutual
    pub tokens : SqParam → List Token
    tokens SqParam.none = Token.null ∷ []
    tokens (SqParam.some e) = tokens e
    tokens SqParam.null = Token.null ∷ []
    tokens (SqParam.bool b) = Token.bool (as_u8 b) ∷ []
    tokens (SqParam.uint n) = Token.uint n ∷ []
    tokens (SqParam.sint z) = Token.sint z ∷ []
    tokens (SqParam.float x) = Token.float (float_text x) ∷ []
    tokens (SqParam.bin s) = Token.bin s ∷ []
    tokens (SqParam.str s) = Token.str s ∷ []
    tokens (SqParam.q_list l) = Token.list_open ∷ (tokens_all l ++ Token.list_close ∷ [])
    tokens (SqParam.fields l) = tokens_all l

    pub tokens_all : SqParams → List Token
    tokens_all SqParams.nil = []
    tokens_all (SqParams.cons p ps) = tokens p ++ tokens_all ps

  abbrev pub tokens_list : List SqParam → List Token
  tokens_list [] = []
  tokens_list (p ∷ ps) = tokens p ++ tokens_list ps
