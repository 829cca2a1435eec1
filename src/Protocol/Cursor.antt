-- ===== src/Protocol/Cursor.antt =====
-- The cursor of the decoder: reads and tests at the current position.
pub mod Laws
use Prim.Native.Nat.{min}
use client_rust.Prelude.{
  ℕ, ◌+◌, ◌-◌, ◌≡◌, Bytes, Bool, true, false, not, ◌&&◌, [], ◌∷◌, none, some, length, drop, take,
  get_elem?, leb, ltb, ◌==◌, if◌then◌else◌,
}
use client_rust.Protocol.Outcome.{
  Decoder, Outcome, done, fail, panic, Method, bind, ◌>>=◌, ◌>>◌, pure,
}

-- `Decoder::new`.
abbrev pub decoder : Bytes → ℕ → Decoder
decoder buf pos = record { b = buf; i = pos }

-- `buf[at]`: a panic out of range.
unfoldable pub index : Bytes → ℕ → Method ℕ
index buf at d = elim (get_elem? buf at) [ none ↦ panic | some r ↦ done r d ]

-- `buf[from..to]`: a panic unless `from <= to <= buf.len()`.
unfoldable pub slice : Bytes → ℕ → ℕ → Method Bytes
slice buf from to d =
    if leb from to && leb to (length buf) then done (drop from (take to buf)) d else panic

-- `self.i += n`.
abbrev pub advance : ℕ → Method (Unit {0})
advance n d = done tt (decoder d.b (d.i + n))

unfoldable pub next : Method ℕ
next d = bind (index d.b d.i d) λ r d₁. bind (advance 1 d₁) λ _ d₂. done r d₂

unfoldable pub current : Method Bytes
current d = slice d.b d.i (length d.b) d

unfoldable pub remaining : Method ℕ
remaining = do c ← current; pure (length c)

unfoldable pub eof : Method Bool
eof = do c ← current; pure (length c == 0)

unfoldable pub cursor_value : Method ℕ
cursor_value = do c ← current; index c 0

-- `self.b.len() - 1` of an empty buffer is a panic, as the index that it makes is out of range.
unfoldable pub last_index : Bytes → Method ℕ
last_index buf d = if length buf == 0 then panic else done (length buf - 1) d

unfoldable pub cursor_eq : ℕ → Method Bool
cursor_eq c d = bind (last_index d.b d) λ last d₁.
    bind (index d₁.b (min d₁.i last) d₁)
      λ r d₂. if r == c then bind (eof d₂) (λ e d₃. done (not e) d₃) else done false d₂

unfoldable pub has_left : ℕ → Method Bool
has_left s = do r ← remaining; pure (leb s r)

unfoldable pub next_chunk : ℕ → Method Bytes
next_chunk size d =
    bind (slice d.b d.i (d.i + size) d) λ chunk d₁. bind (advance size d₁) λ _ d₂. done chunk d₂
