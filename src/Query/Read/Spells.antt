-- ===== src/Query/Read/Spells.antt =====
-- The bytes of src/query.rs for a parameter, as the reader takes them.
use client_rust.Prelude.{
  ℕ, zero, suc, ◌+◌, ◌-◌, ◌≡◌, refl, All, false, Bytes, List, [], ◌∷◌, ◌++◌, none, some, Bool-cases,
  inl, inr, length, append_assoc, length-append, lf, ◌==◌, arith,
}
use native.Mathlib.Nat.{zero-add, suc-add}
use client_rust.Std.{ℤ, pos, negsuc, negate, is_ascii_digit, parse_digits, parse_magnitude}
use client_rust.Itoa.{Itoa}
use client_rust.Query.{Float, SqParam, SqParams, list_sym_open, list_sym_close, FloatText, as_u8}
use client_rust.Query as Queries
use client_rust.Query.Wire.{read_line, read_line-magnitude, split_at-length}
use client_rust.Query.Packet.{params}
use client_rust.Query.Params.{encode, encode_all, encode_list, query_lem}
use client_rust.Query.Read.{
  Token, Reading, and_then, read_text, read_signed, read_block, read_token, read_tokens, tokens,
  tokens_all, tokens_list,
}

-- Tokens that follow others, from what is read of them.
behind_one :
    (t : Token) (ts : List Token) (o : Reading (List Token))
    → and_then (and_then o (λ us u. some (ts ++ us, u))) (λ us u. some (t ∷ us, u))
      ≡ and_then o (λ us u. some ((t ∷ ts) ++ us, u))
behind_one t ts none = refl
behind_one t ts (some (us, u)) = refl

behind_all :
    (m : ℕ) (t : Token) (o : Reading (List Token))
    → and_then
        (and_then o (λ ts r. and_then (read_tokens m r) (λ us u. some (ts ++ us, u))))
        (λ us u. some (t ∷ us, u))
      ≡ and_then
          (and_then o (λ ts u. some (t ∷ ts, u)))
          (λ ts r. and_then (read_tokens m r) (λ us u. some (ts ++ us, u)))
behind_all m t none = refl
behind_all m t (some (ts, r)) = behind_one t ts (read_tokens m r)

nothing_behind : (o : Reading (List Token)) → o ≡ and_then o (λ us u. some ([] ++ us, u))
nothing_behind none = refl
nothing_behind (some (us, u)) = refl

first_token :
    (k m : ℕ) (o : Reading Token)
    → ((s : Bytes)
        → read_tokens (k + m) s
          ≡ and_then
              (read_tokens k s)
              (λ ts r. and_then (read_tokens m r) (λ us u. some (ts ++ us, u))))
    → and_then o (λ t r. and_then (read_tokens (k + m) r) (λ ts u. some (t ∷ ts, u)))
      ≡ and_then
          (and_then o (λ t r. and_then (read_tokens k r) (λ ts u. some (t ∷ ts, u))))
          (λ ts r. and_then (read_tokens m r) (λ us u. some (ts ++ us, u)))
first_token k m none h = refl
first_token k m (some (t, r)) h = rw (h r) (behind_all m t (read_tokens k r))

read_tokens-add :
    (k m : ℕ) (s : Bytes)
    → read_tokens (k + m) s
      ≡ and_then (read_tokens k s) (λ ts r. and_then (read_tokens m r) (λ us u. some (ts ++ us, u)))
read_tokens-add zero m s = rw zero-add (nothing_behind (read_tokens m s))
read_tokens-add (suc k) m s = rw suc-add (first_token k m (read_token s) (read_tokens-add k m))

-- The bytes spell the tokens, whatever follows them.
abbrev Spells : Bytes → List Token → Type 0
Spells s ts = (rest : Bytes) → read_tokens (length ts) (s ++ rest) ≡ some (ts, rest)

Spells-one :
    (s : Bytes) (t : Token)
    → ((rest : Bytes) → read_token (s ++ rest) ≡ some (t, rest))
    → Spells s (t ∷ [])
Spells-one s t h rest = rw (h rest)

Spells-append :
    (s s' : Bytes) (ts us : List Token) → Spells s ts → Spells s' us → Spells (s ++ s') (ts ++ us)
Spells-append s s' ts us h h' rest =
    rw
      (
        length-append ts us,
        append_assoc s s' rest,
        read_tokens-add (length ts) (length us) (s ++ (s' ++ rest)),
        h (s' ++ rest),
      )
      (rw (h' rest))

-- The lines and blocks of the tokens.
read_text-line :
    (s rest : Bytes) → All (λ c. (c == lf) ≡ false) s → read_text (s ++ lf ∷ rest) ≡ some (s, rest)
read_text-line [] rest v = refl
read_text-line (c ∷ s) rest (other, v) = rw (read_text, other) (rw (read_text-line s rest v))

module _ (itoa : Itoa) where
  number : (n : ℕ) (rest : Bytes) → read_line 0 (itoa.format n ++ lf ∷ rest) ≡ some (n, rest)
  number n rest = read_line-magnitude (itoa.format n) n rest (itoa.format_value n)

  block :
      (s rest : Bytes) → read_block (itoa.format (length s) ++ lf ∷ (s ++ rest)) ≡ some (s, rest)
  block s rest = rw (number (length s) (s ++ rest)) (split_at-length s rest)

  -- The digits of a number do not begin with a minus sign.
  unsigned_text :
      (s : Bytes) (n : ℕ) (rest : Bytes)
      → parse_magnitude s ≡ some n
      → read_signed (s ++ lf ∷ rest) ≡ some (pos n, rest)
  unsigned_text [] n rest h = absurd (unfold parse_magnitude in cc)
  unsigned_text (c ∷ s) n rest h = elim (Bool-cases (is_ascii_digit c)) [
    | inl digit ↦
        let other : (c == b'-') ≡ false = ground arith in
        rw (read_signed, other) (rw (read_line-magnitude (c ∷ s) n rest h))
    | inr no_digit ↦ absurd (unfold parse_magnitude parse_digits in ground arith)
  ]

  signed : (z : ℤ) (rest : Bytes) → read_signed (itoa.format_signed z ++ lf ∷ rest) ≡ some (z, rest)
  signed (pos n) rest =
      rw (itoa.format_pos n) (unsigned_text (itoa.format n) n rest (itoa.format_value n))
  signed (negsuc n) rest =
      let positive : (n + 1 == 0) ≡ false = ground arith in
      let back : n + 1 - 1 ≡ n = omega arith in
      rw (itoa.format_negsuc n) (rw (number (n + 1) rest) (rw (negate, positive, back)))

  module _ (float_text : FloatText)
      (one_line : (x : Float) → All (λ c. (c == lf) ≡ false) (float_text x)) where
    mutual
      unfolding encode

      encode-Spells : (p : SqParam) → Spells (encode itoa float_text p) (tokens float_text p)
      encode-Spells SqParam.none = Spells-one (0 ∷ []) Token.null (λ rest. refl)
      encode-Spells (SqParam.some e) = encode-Spells e
      encode-Spells SqParam.null = Spells-one (0 ∷ []) Token.null (λ rest. refl)
      encode-Spells (SqParam.bool b) =
          Spells-one (1 ∷ as_u8 b ∷ []) (Token.bool (as_u8 b)) (λ rest. refl)
      encode-Spells (SqParam.uint n) =
          Spells-one (2 ∷ (itoa.format n ++ lf ∷ [])) (Token.uint n)
            (λ rest. rw (append_assoc (itoa.format n) (lf ∷ []) rest) (rw (number n rest)))
      encode-Spells (SqParam.sint z) =
          Spells-one (3 ∷ (itoa.format_signed z ++ lf ∷ [])) (Token.sint z)
            (λ rest. rw (append_assoc (itoa.format_signed z) (lf ∷ []) rest) (rw (signed z rest)))
      encode-Spells (SqParam.float x) =
          Spells-one (4 ∷ (float_text x ++ lf ∷ [])) (Token.float (float_text x)) (λ rest.
            rw (append_assoc (float_text x) (lf ∷ []) rest)
              (rw (read_text-line (float_text x) rest (one_line x))))
      encode-Spells (SqParam.bin s) =
          Spells-one (5 ∷ (itoa.format (length s) ++ lf ∷ s)) (Token.bin s)
            (λ rest. rw (append_assoc (itoa.format (length s)) (lf ∷ s) rest) (rw (block s rest)))
      encode-Spells (SqParam.str s) =
          Spells-one (6 ∷ (itoa.format (length s) ++ lf ∷ s)) (Token.str s)
            (λ rest. rw (append_assoc (itoa.format (length s)) (lf ∷ s) rest) (rw (block s rest)))
      encode-Spells (SqParam.q_list l) =
          Spells-append (list_sym_open ∷ []) _ (Token.list_open ∷ []) _
            (Spells-one (list_sym_open ∷ []) Token.list_open (λ rest. refl))
            (Spells-append (encode_all itoa float_text l) (list_sym_close ∷ []) _
              (Token.list_close ∷ []) (encode_all-Spells l)
              (Spells-one (list_sym_close ∷ []) Token.list_close (λ rest. refl)))
      encode-Spells (SqParam.fields l) = encode_all-Spells l

      encode_all-Spells :
          (l : SqParams) → Spells (encode_all itoa float_text l) (tokens_all float_text l)
      encode_all-Spells SqParams.nil = λ rest. refl
      encode_all-Spells (SqParams.cons p ps) =
          Spells-append _ _ _ _ (encode-Spells p) (encode_all-Spells ps)

    encode_list-Spells :
        (ps : List SqParam) → Spells (encode_list itoa float_text ps) (tokens_list float_text ps)
    encode_list-Spells [] = λ rest. refl
    encode_list-Spells (p ∷ ps) = Spells-append _ _ _ _ (encode-Spells p) (encode_list-Spells ps)

    -- The arguments of `query!` are read back from the parameters of the query as their tokens, in their
    -- order, lists and structures included, whatever follows them: no argument can be taken for another or
    -- for a part of another. It is asked that the text of a float has no line feed.
    pub read_tokens-query :
        (text : Bytes) (ps : List SqParam) (rest : Bytes)
        → read_tokens
            (length (tokens_list float_text ps))
            (params (Queries.query itoa float_text text ps) ++ rest)
          ≡ some (tokens_list float_text ps, rest)
    read_tokens-query text ps rest =
        rw ((query_lem itoa float_text text ps).1) (encode_list-Spells ps rest)
