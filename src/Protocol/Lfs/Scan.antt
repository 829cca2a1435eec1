-- ===== src/Protocol/Lfs/Scan.antt =====
-- `LfsValue::complete` as one pass over the bytes that are left: the reference for its loop.
use client_rust.Prelude.{
  ℕ, zero, suc, ◌+◌, ◌-◌, ◌≤◌, ◌<◌, ◌≡◌, refl, ap, Bytes, Bool, true, false, not, [], ◌∷◌, length,
  drop, arith, ◌==◌, length-drop, get_elem?-drop, drop-next, lf, Bool-cases, inl, inr,
}
use client_rust.Error.{invalid_server_response_for_data}
use client_rust.Protocol.Outcome.{Decoder, Outcome, done, fail, Method, bind}
use client_rust.Protocol.Cursor.{decoder}
use client_rust.Protocol.Cursor.Laws.{starts_with, next_lem, eof_lem, cursor_eq_lem}
use client_rust.Protocol.Extend.{IsValid}
use client_rust.Protocol.State.{ProtocolObjectDecodeState, completed, pending}
use client_rust.Protocol.Lfs.{
  LfsObject, LfsValue, LfsLoop, updated, lfs_step, lfs_loop, lfs_finish, complete,
}

module _ {T S : Type 0} (o : LfsObject T S) where
  -- The line feed is read: the object is parsed.
  unfoldable pub scan_end :
      LfsValue T S → Method (ProtocolObjectDecodeState (LfsValue T S) (LfsValue T S))
  scan_end x d =
      bind (o.complete_lfs x.v x.state d)
        λ v₁ d₁. done (completed (record { v = v₁; state = x.state })) d₁

  unfoldable pub scan :
      LfsValue T S
      → Decoder
      → Bytes
      → Outcome (ProtocolObjectDecodeState (LfsValue T S) (LfsValue T S))
  scan x d [] = done (pending x) d
  scan x d (c ∷ r) = elim (c == lf) [
    | true ↦ scan_end x (decoder d.b (d.i + 1))
    | false ↦ elim ((updated o x c).1) [
      | true ↦ scan ((updated o x c).0) (decoder d.b (d.i + 1)) r
      | false ↦ fail invalid_server_response_for_data (decoder d.b (d.i + 1))
    ]
  ]

  abbrev at_byte : LfsValue T S → Bool → Bool → LfsLoop T S
  at_byte x e s = record { obj = x; error = e; stop = s }

  lfs_step_lem :
      (x : LfsValue T S) (d : Decoder) (c : ℕ) (r : Bytes)
      → d.i < length d.b
      → drop d.i d.b ≡ c ∷ r
      → lfs_step o (at_byte x false false) d
        ≡ done
            (at_byte ((updated o x c).0) (not (updated o x c).1) (starts_with lf r))
            (decoder d.b (d.i + 1))
  unfolding lfs_step
  lfs_step_lem x d c r h e = rw (next_lem d c (get_elem?-drop d.i d.b e)) (
      rw (
        cursor_eq_lem lf (decoder d.b (d.i + 1)) r (omega arith) (omega arith)
          (drop-next d.i d.b e)))

  -- After an error the loop stops, and `complete` fails.
  lfs_loop_error :
      (f : ℕ) (x : LfsValue T S) (s : Bool) (d : Decoder)
      → 0 < f
      → d.i ≤ length d.b
      → bind (lfs_loop o f (at_byte x true s) d) (lfs_finish o)
        ≡ fail invalid_server_response_for_data d
  unfolding lfs_loop lfs_finish
  lfs_loop_error zero x s d p h = absurd (omega arith)
  lfs_loop_error (suc f) x s d p h = rw (eof_lem d h) (ground arith)

  pub scan_nil : (x : LfsValue T S) (d : Decoder) → scan x d [] ≡ done (pending x) d
  unfolding scan
  scan_nil x d = refl

  pub scan_line_feed :
      (x : LfsValue T S) (d : Decoder) (c : ℕ) (r : Bytes)
      → (c == lf) ≡ true
      → scan x d (c ∷ r) ≡ scan_end x (decoder d.b (d.i + 1))
  unfolding scan
  scan_line_feed x d c r h = ground arith

  pub scan_accepted :
      (x : LfsValue T S) (d : Decoder) (c : ℕ) (r : Bytes)
      → (c == lf) ≡ false
      → (updated o x c).1 ≡ true
      → scan x d (c ∷ r) ≡ scan ((updated o x c).0) (decoder d.b (d.i + 1)) r
  unfolding scan
  scan_accepted x d c r h k = ground arith

  pub scan_refused :
      (x : LfsValue T S) (d : Decoder) (c : ℕ) (r : Bytes)
      → (c == lf) ≡ false
      → (updated o x c).1 ≡ false
      → scan x d (c ∷ r) ≡ fail invalid_server_response_for_data (decoder d.b (d.i + 1))
  unfolding scan
  scan_refused x d c r h k = ground arith

  -- The loop with its end: at the end of the buffer, at a line feed, and at any other byte.
  lfs_loop_end :
      (f : ℕ) (x : LfsValue T S) (d : Decoder)
      → d.i ≡ length d.b
      → bind (lfs_loop o (suc f) (at_byte x false false) d) (lfs_finish o) ≡ done (pending x) d
  unfolding lfs_loop lfs_finish
  lfs_loop_end f x d h = rw (eof_lem d (omega arith)) (ground arith)

  lfs_loop_stop :
      (f : ℕ) (x : LfsValue T S) (d : Decoder)
      → d.i ≤ length d.b
      → bind (lfs_loop o (suc f) (at_byte x false true) d) (lfs_finish o)
        ≡ scan_end x (decoder d.b (d.i + 1))
  unfolding lfs_loop lfs_finish scan_end
  lfs_loop_stop f x d h = rw (eof_lem d h) (ground arith)

  lfs_loop_next :
      (f : ℕ) (x : LfsValue T S) (d : Decoder)
      → d.i < length d.b
      → lfs_loop o (suc f) (at_byte x false false) d
        ≡ bind (lfs_step o (at_byte x false false) d) (lfs_loop o f)
  unfolding lfs_loop
  lfs_loop_next f x d h = rw (eof_lem d (omega arith)) (ground arith)

  lfs_loop-scan :
      (f : ℕ) (x : LfsValue T S) (d : Decoder) (rest : Bytes) (s : Bool)
      → 0 < length d.b
      → d.i ≤ length d.b
      → drop d.i d.b ≡ rest
      → starts_with lf rest ≡ s
      → length rest < f
      → bind (lfs_loop o f (at_byte x false s) d) (lfs_finish o) ≡ scan x d rest
  lfs_loop-scan zero x d rest s b h e l m = absurd (omega arith)
  lfs_loop-scan (suc f) x d [] s b h e l m =
      rw (← l, lfs_loop_end f x d (omega (arith, ap length e, length-drop d.i d.b)))
        (unfold scan in refl)
  lfs_loop-scan (suc f) x d (c ∷ r) true b h e l m =
      rw (lfs_loop_stop f x d h, scan_line_feed x d c r l)
  lfs_loop-scan (suc f) x d (c ∷ r) false b h e l m =
      let within : d.i < length d.b = omega (arith, ap length e, length-drop d.i d.b) in
      rw (lfs_loop_next f x d within, lfs_step_lem x d c r within e)
        (elim (Bool-cases ((updated o x c).1)) [
          | inl accepted ↦
              rw (accepted, scan_accepted x d c r l accepted)
                (lfs_loop-scan f ((updated o x c).0) (decoder d.b (d.i + 1)) r (starts_with lf r) b
                  (omega arith) (drop-next d.i d.b e) refl (omega arith))
          | inr refused ↦
              rw (refused, scan_refused x d c r l refused)
                (lfs_loop_error f _ (starts_with lf r) _ (omega arith) (omega arith))
        ])

  -- `complete` is one pass over the bytes that are left.
  pub complete-scan :
      (x : LfsValue T S) (d : Decoder) (rest : Bytes)
      → IsValid d
      → drop d.i d.b ≡ rest
      → complete o x d ≡ scan x d rest
  unfolding complete
  complete-scan x d rest (b, h) e = rw (cursor_eq_lem lf d rest b h e) (
      lfs_loop-scan (suc (length d.b - d.i)) x d rest (starts_with lf rest) b h e refl
        (omega (arith, ap length e, length-drop d.i d.b)))
