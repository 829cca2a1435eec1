-- ===== src/Query/Packet.antt =====
-- A reader for the packet of `Query::write_packet`, in src/query.rs.
use client_rust.Prelude.{
  ◌+◌, ◌≤◌, ◌≡◌, Bytes, true, false, Option, none, some, [], ◌∷◌, ◌++◌, length, length-append,
  append_assoc, drop, ◌==◌, arith, lf,
}
use client_rust.Itoa.{Itoa}
use client_rust.Query.{Query, query_str, write_packet}
use client_rust.Query.Wire.{
  read_line, split_at, read_line-magnitude, split_at-length, split_at-take,
}

-- The window ends within the buffer.
abbrev pub IsValid : Query → Type 0
IsValid q = q.q_window ≤ length q.buf

-- What follows the query text.
abbrev pub params : Query → Bytes
params q = drop q.q_window q.buf

infixl 5 ◌>>=◌
abbrev ◌>>=◌ : {A B : Type 0} → Option A → (A → Option B) → Option B
none >>= f = none
some a >>= f = f a

-- A query's body: its window, and the text and parameters that it divides the block into.
pub read_body : Bytes → Option (Bytes × Bytes)
read_body block = read_line 0 block >>= λ (window, body). split_at window body

-- A packet `S<total>\n<window>\n<text><parameters>`, and what follows it.
pub read_packet : Bytes → Option (Bytes × Bytes × Bytes)
read_packet [] = none
read_packet (c ∷ r) = elim (c == b'S') [
  | false ↦ none
  | true ↦ read_line 0 r >>= λ (total, s).
      split_at total s >>= λ (block, rest). read_body block >>= λ (text, ps). some (text, ps, rest)
]

-- The announced size of a packet is the length of its block.
packet_size : (w buf : Bytes) → length w + 1 + length buf ≡ length (w ++ lf ∷ buf)
packet_size w buf = omega (arith, length-append w (lf ∷ buf))

module _ (itoa : Itoa) where
  read_body_lem :
      (q : Query)
      → IsValid q
      → read_body (itoa.format q.q_window ++ lf ∷ q.buf) ≡ some (query_str q, params q)
  unfolding read_body query_str
  read_body_lem q v =
      rw
        (read_line-magnitude (itoa.format q.q_window) q.q_window q.buf
          (itoa.format_value q.q_window))
        (split_at-take q.q_window q.buf v)

  -- The packet of a query is read back as the query text and the parameters, with nothing of what
  -- follows it, for a query whose window lies within its buffer: the announced sizes are exact.
  pub read_packet-write_packet :
      (q : Query) (rest : Bytes)
      → IsValid q
      → read_packet (write_packet itoa q ++ rest) ≡ some (query_str q, params q, rest)
  unfolding read_packet write_packet
  read_packet-write_packet q rest v =
      let w = itoa.format q.q_window in
      let block = w ++ lf ∷ q.buf in
      let total = length w + 1 + length q.buf in
      rw (
        append_assoc (itoa.format total) (lf ∷ block) rest,
        read_line-magnitude (itoa.format total) total (block ++ rest) (itoa.format_value total),
        packet_size w q.buf,
        split_at-length block rest,
        read_body_lem q v,
      )
