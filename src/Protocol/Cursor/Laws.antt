-- ===== src/Protocol/Cursor/Laws.antt =====
-- The cursor's reads and tests at a valid decoder, in terms of the bytes that are left.
use Prim.Native.Nat.{min}
use client_rust.Prelude.{
  ℕ, ◌+◌, ◌-◌, ◌≤◌, ◌<◌, ◌≡◌, ap, Bytes, Bool, false, [], ◌∷◌, some, length, drop, take, get_elem?,
  arith, leb, ◌==◌, length-drop, take_all, get_elem?_total, get_elem?-drop,
}
use client_rust.Protocol.Outcome.{Decoder, done}
use client_rust.Protocol.Cursor.{
  decoder, index, slice, next, current, remaining, eof, cursor_value, last_index, cursor_eq,
  has_left, next_chunk,
}

pub slice_lem :
    (buf : Bytes) (from to : ℕ) (d : Decoder)
    → from ≤ to
    → to ≤ length buf
    → slice buf from to d ≡ done (drop from (take to buf)) d
unfolding slice
slice_lem buf from to d h k = ground arith

pub current_lem : (d : Decoder) → d.i ≤ length d.b → current d ≡ done (drop d.i d.b) d
unfolding current
current_lem d h = rw (slice_lem d.b d.i (length d.b) d h (omega arith), take_all d.b)

pub remaining_lem : (d : Decoder) → d.i ≤ length d.b → remaining d ≡ done (length d.b - d.i) d
unfolding remaining
remaining_lem d h = rw (current_lem d h, length-drop d.i d.b)

pub eof_lem : (d : Decoder) → d.i ≤ length d.b → eof d ≡ done (d.i == length d.b) d
unfolding eof
eof_lem d h = rw (current_lem d h) (ground (arith, length-drop d.i d.b))

pub has_left_lem :
    (s : ℕ) (d : Decoder) → d.i ≤ length d.b → has_left s d ≡ done (leb s (length d.b - d.i)) d
unfolding has_left
has_left_lem s d h = rw (remaining_lem d h)

-- The starts of a non-empty rest.
abbrev pub starts_with : ℕ → Bytes → Bool
starts_with c [] = false
starts_with c (x ∷ r) = x == c

index_lem :
    (buf : Bytes) (at : ℕ) (d : Decoder) {x : ℕ}
    → get_elem? buf at ≡ some x
    → index buf at d ≡ done x d
unfolding index
index_lem buf at d h = rw (h, index)

pub next_lem :
    (d : Decoder) (x : ℕ) → get_elem? d.b d.i ≡ some x → next d ≡ done x (decoder d.b (d.i + 1))
unfolding next
next_lem d x h = rw (index_lem d.b d.i d h)

pub cursor_value_lem :
    (d : Decoder) {x : ℕ} {r : Bytes}
    → d.i ≤ length d.b
    → drop d.i d.b ≡ x ∷ r
    → cursor_value d ≡ done x d
unfolding cursor_value index
cursor_value_lem d h e = rw (current_lem d h, e)

pub last_index_lem :
    (buf : Bytes) (d : Decoder) → 0 < length buf → last_index buf d ≡ done (length buf - 1) d
unfolding last_index
last_index_lem buf d h = ground arith

cursor_eq_end :
    (c : ℕ) (d : Decoder) → 0 < length d.b → d.i ≡ length d.b → cursor_eq c d ≡ done false d
unfolding cursor_eq
cursor_eq_end c d h e =
    let (r, found) = get_elem?_total (length d.b - 1) d.b (omega arith) in
    let clamped : min d.i (length d.b - 1) ≡ length d.b - 1 = omega arith in
    rw (last_index_lem d.b d h, clamped, index_lem d.b (length d.b - 1) d found)
      (ground (arith, eof_lem d (omega arith)))

cursor_eq_byte :
    (c : ℕ) (d : Decoder) {x : ℕ}
    → d.i < length d.b
    → get_elem? d.b d.i ≡ some x
    → cursor_eq c d ≡ done (x == c) d
unfolding cursor_eq
cursor_eq_byte c d h found =
    let inside : min d.i (length d.b - 1) ≡ d.i = omega arith in
    rw (last_index_lem d.b d (omega arith), inside, index_lem d.b d.i d found)
      (ground (arith, eof_lem d (omega arith)))

-- `cursor_eq` tests the byte at the cursor, and is false at the end.
pub cursor_eq_lem :
    (c : ℕ) (d : Decoder) (rest : Bytes)
    → 0 < length d.b
    → d.i ≤ length d.b
    → drop d.i d.b ≡ rest
    → cursor_eq c d ≡ done (starts_with c rest) d
cursor_eq_lem c d [] h k e = cursor_eq_end c d h (omega (arith, ap length e, length-drop d.i d.b))
cursor_eq_lem c d (x ∷ r) h k e =
    cursor_eq_byte c d (omega (arith, ap length e, length-drop d.i d.b)) (get_elem?-drop d.i d.b e)

pub next_chunk_lem :
    (size : ℕ) (d : Decoder)
    → d.i + size ≤ length d.b
    → next_chunk size d ≡ done (drop d.i (take (d.i + size) d.b)) (decoder d.b (d.i + size))
unfolding next_chunk
next_chunk_lem size d h = rw (slice_lem d.b d.i (d.i + size) d (omega arith) h)
