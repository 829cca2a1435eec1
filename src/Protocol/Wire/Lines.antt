-- ===== src/Protocol/Wire/Lines.antt =====
-- The objects of `LfsObject` and the sizes in src/protocol/mod.rs, read from their lines.
use client_rust.Prelude.{
  ℕ, ◌+◌, ◌-◌, ◌≡◌, refl, ap, ◌∙◌, All, false, Bytes, [], ◌∷◌, ◌++◌, Option, some, none, length,
  drop, arith, length-append, drop-take-prefix, append_assoc, lf, ◌==◌,
}
use client_rust.Protocol.Outcome.{Decoder, done, fail}
use client_rust.Protocol.Cursor.{decoder, slice}
use client_rust.Protocol.Cursor.Laws.{slice_lem}
use client_rust.Protocol.State.{completed, try_complete}
use client_rust.Protocol.Lfs.{LfsValue, unsigned, parsed, parse_block, complete, initialize}
use client_rust.Protocol.Lfs.Scan.{scan, scan_end, scan_line_feed, scan_accepted, complete-scan}
use client_rust.Protocol.Lfs.Numbers.{scan-fits}
use client_rust.Protocol.Lfs.Objects.{parsed_block, parse_block_lem}
use client_rust.Error.{invalid_server_response_for_data}
use client_rust.Protocol.Sp.{complete_size, pending_size}
use client_rust.Protocol.Wire.{Digits, Line}
use client_rust.Protocol.Wire.At.{At, past, At-room}

-- The position behind the line, as the decoder computes it.
line_end : (d : Decoder) (s : Bytes) → decoder d.b (d.i + length s + 1) ≡ past d (s ++ lf ∷ [])
line_end d s = ap (decoder d.b) (omega (arith, length-append s (lf ∷ [])))

pub unsigned-Digits :
    (w n : ℕ) (s : Bytes) (d : Decoder) (rest : Bytes)
    → Digits w s n
    → At d (s ++ lf ∷ []) rest
    → complete (unsigned w) (initialize (unsigned w) d) d
      ≡ done (completed (record { v = n; state = tt })) (past d (s ++ lf ∷ []))
unfolding initialize
unsigned-Digits w n s d rest (digits, fits) (v, e) =
    rw
      (
        ← line_end d s,
        complete-scan (unsigned w) _ d (s ++ lf ∷ rest) v (e ∙ append_assoc s (lf ∷ []) rest),
      )
      (scan-fits w s 0 n d rest digits fits)

-- The size of a block or the count of a list.
pub complete_size-Digits :
    (n : ℕ) (s : Bytes) (d : Decoder) (rest : Bytes)
    → Digits 64 s n
    → At d (s ++ lf ∷ []) rest
    → complete_size (pending_size d) d ≡ done (completed n) (past d (s ++ lf ∷ []))
unfolding complete_size try_complete
complete_size-Digits n s d rest h at = rw (unsigned-Digits 64 n s d rest h at)

module _ {A : Type 0} (parse : Bytes → Option A) (default : A) where
  -- No byte of a line is refused.
  scan-line :
      (s : Bytes) (x : LfsValue A ℕ) (d : Decoder) (rest : Bytes)
      → All (λ c. (c == lf) ≡ false) s
      → scan (parsed default parse) x d (s ++ lf ∷ rest)
        ≡ scan_end (parsed default parse) x (decoder d.b (d.i + length s + 1))
  scan-line [] x d rest l =
      let here : d.i + 1 ≡ d.i + 0 + 1 = omega arith in
      rw (scan_line_feed (parsed default parse) x d lf rest refl, here)
  scan-line (c ∷ s) x d rest (l, ls) =
      let here : d.i + 1 + length s + 1 ≡ d.i + length (c ∷ s) + 1 = omega arith in
      rw (scan_accepted (parsed default parse) x d c (s ++ lf ∷ rest) l refl)
        (rw (← here) (scan-line s x (decoder d.b (d.i + 1)) rest ls))

  parsed_block-Line : (x : A) (s : Bytes) → Line parse s x → parsed_block parse s ≡ some x
  parsed_block-Line x s (parses, valid, one_line) = rw valid parses

  parse_block-Line :
      (x : A) (s : Bytes) (start : ℕ) (d : Decoder)
      → slice d.b start (d.i - 1) d ≡ done s d
      → Line parse s x
      → parse_block parse start d ≡ done x d
  parse_block-Line x s start d e line =
      parse_block_lem parse start d s e
      ∙ ap (λ o. elim o [ some v ↦ done v d | none ↦ fail invalid_server_response_for_data d ])
          (parsed_block-Line x s line)

  scan_end-Line :
      (x : A) (s : Bytes) (start : ℕ) (d : Decoder)
      → slice d.b start (d.i - 1) d ≡ done s d
      → Line parse s x
      → scan_end (parsed default parse) (record { v = default; state = start }) d
        ≡ done (completed (record { v = x; state = start })) d
  unfolding scan_end
  scan_end-Line x s start d e line = rw (parse_block-Line x s start d e line)

  pub parsed-Line :
      (x : A) (s : Bytes) (d : Decoder) (rest : Bytes)
      → Line parse s x
      → At d (s ++ lf ∷ []) rest
      → complete (parsed default parse) (initialize (parsed default parse) d) d
        ≡ done (completed (record { v = x; state = d.i })) (past d (s ++ lf ∷ []))
  unfolding initialize
  parsed-Line x s d rest (parses, valid, one_line) (v, e) =
      let e' : drop d.i d.b ≡ s ++ lf ∷ rest = e ∙ append_assoc s (lf ∷ []) rest in
      let d' : Decoder = decoder d.b (d.i + length s + 1) in
      let last : d.i + length s + 1 - 1 ≡ d.i + length s = omega arith in
      let room = At-room d (s ++ lf ∷ []) rest (v, e) in
      let block : slice d.b d.i (d'.i - 1) d' ≡ done s d' = rw (
        slice_lem d.b d.i (d'.i - 1) d' (omega arith)
            (omega (arith, room, length-append s (lf ∷ []))),
        last,
        drop-take-prefix d.i d.b s (lf ∷ rest) e',
      ) in
      rw
        (
          ← line_end d s,
          complete-scan (parsed default parse) _ d (s ++ lf ∷ rest) v e',
          scan-line s (record { v = default; state = d.i }) d rest one_line,
        )
        (scan_end-Line x s d.i d' block (parses, valid, one_line))
