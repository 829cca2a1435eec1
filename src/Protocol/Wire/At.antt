-- ===== src/Protocol/Wire/At.antt =====
-- The bytes at the position of a decoder, and the position behind them.
use client_rust.Prelude.{
  ℕ, ◌+◌, ◌≤◌, ◌≡◌, ap, ◌∙◌, Bytes, [], ◌∷◌, ◌++◌, length, drop, arith, length-append, append_assoc,
  length-drop, drop-prefix, get_elem?-drop,
}
use client_rust.Protocol.Outcome.{Decoder, done, Method}
use client_rust.Protocol.Cursor.{decoder, next}
use client_rust.Protocol.Cursor.Laws.{next_lem}
use client_rust.Protocol.Extend.{IsValid}
use client_rust.Protocol.State.{ProtocolObjectDecodeState, completed}

-- The bytes `s` stand at the position, and `rest` behind them.
abbrev pub At : Decoder → Bytes → Bytes → Type 0
At d s rest = IsValid d × (drop d.i d.b ≡ s ++ rest)

-- The decoder behind `s`.
abbrev pub past : Decoder → Bytes → Decoder
past d s = decoder d.b (d.i + length s)

-- The method reads `c` from `s`, whatever follows.
abbrev pub Yields : {T U : Type 0} → Method (ProtocolObjectDecodeState T U) → Bytes → T → Type 0
Yields m s c = (d : Decoder) (rest : Bytes) → At d s rest → m d ≡ done (completed c) (past d s)

pub At-room : (d : Decoder) (s rest : Bytes) → At d s rest → d.i + length s ≤ length d.b
At-room d s rest (v, e) = omega (arith, ap length e, length-append s rest, length-drop d.i d.b)

pub At-front : (d : Decoder) (s t rest : Bytes) → At d (s ++ t) rest → At d s (t ++ rest)
At-front d s t rest (v, e) = (v, e ∙ append_assoc s t rest)

pub At-past : (d : Decoder) (s t rest : Bytes) → At d (s ++ t) rest → At (past d s) t rest
At-past d s t rest (v, e) = (
  (v.0, omega (arith, At-room d (s ++ t) rest (v, e), length-append s t)),
  drop-prefix d.i d.b s (t ++ rest) (e ∙ append_assoc s t rest),
)

pub past_nil : (d : Decoder) → past d [] ≡ d
past_nil d = ap (decoder d.b) (omega arith)

pub past-past : (d : Decoder) (s t : Bytes) → past (past d s) t ≡ past d (s ++ t)
past-past d s t = ap (decoder d.b) (omega (arith, length-append s t))

pub At-next :
    (d : Decoder) (c : ℕ) (s rest : Bytes) → At d (c ∷ s) rest → next d ≡ done c (past d (c ∷ []))
At-next d c s rest (v, e) = next_lem d c (get_elem?-drop d.i d.b e)

pub At-behind :
    (d : Decoder) (c : ℕ) (s rest : Bytes) → At d (c ∷ s) rest → At (past d (c ∷ [])) s rest
At-behind d c s rest h = At-past d (c ∷ []) s rest h

pub past-IsValid : (d : Decoder) (s rest : Bytes) → At d s rest → IsValid (past d s)
past-IsValid d s rest at = (at.0.0, At-room d s rest at)
