-- ===== src/Protocol/Lfs/Resume.antt =====
-- `LfsValue::complete` of src/protocol/mod.rs on a buffer that is extended.
use client_rust.Prelude.{
  ℕ, ◌+◌, ◌≤◌, ◌<◌, ◌≡◌, refl, sym, ap, Bytes, [], ◌∷◌, ◌++◌, length, drop, arith, ◌==◌, ◌⊎◌, inl,
  inr, length-drop, drop-append, drop-next, lf, Bool-cases,
}
use client_rust.Error.{ProtocolError}
use client_rust.Protocol.Outcome.{Decoder, done, fail, Method}
use client_rust.Protocol.Cursor.{decoder}
use client_rust.Protocol.Extend.{
  extend, IsValid, Follows, Advances-refl, Follows-from, extend-IsValid,
}
use client_rust.Protocol.Lfs
use client_rust.Protocol.Lfs.{LfsObject, LfsValue, updated, complete}
use client_rust.Protocol.Lfs.Scan.{
  scan, scan_end, scan_nil, scan_line_feed, scan_accepted, scan_refused, complete-scan,
}

-- Parsing at the end does not look behind the cursor, moves nothing, and does not panic.
abbrev pub KeepsAt : {T : Type 0} → Method T → Decoder → Bytes → Type 0
KeepsAt {T} m d more =
    ((v : T) × (m d ≡ done v d) × (m (extend d more) ≡ done v (extend d more)))
    ⊎ ((e : ProtocolError) × (m d ≡ fail e d) × (m (extend d more) ≡ fail e (extend d more)))

-- What the reception in pieces asks of an object: `IsReady x i` holds of a state at position `i`.
pub record IsLocal {T S : Type 0} (o : LfsObject T S) (IsReady : LfsValue T S → ℕ → Type 0)
    : Type 0 where
  pub ready_initial : (d : Decoder) → IsReady (Lfs.initialize o d) d.i
  pub ready_updated :
      (x : LfsValue T S) (i c : ℕ) → IsReady x i → IsReady ((updated o x c).0) (i + 1)
  pub ready_later : (x : LfsValue T S) (i j : ℕ) → i ≤ j → IsReady x i → IsReady x j
  pub keeps :
      (x : LfsValue T S) (d : Decoder) (more : Bytes)
      → d.i < length d.b
      → IsReady x d.i
      → KeepsAt (o.complete_lfs x.v x.state) (decoder d.b (d.i + 1)) more

module _ {T S : Type 0} (X : Type 0) (o : LfsObject T S) (IsReady : LfsValue T S → ℕ → Type 0)
    (local : IsLocal o IsReady) (more : Bytes) where
  scan_end-Follows :
      (x : LfsValue T S) (d : Decoder)
      → d.i < length d.b
      → IsReady x d.i
      → let d' = decoder d.b (d.i + 1) in
        Follows X IsReady (complete o) more d (scan_end o x (extend d' more)) (scan_end o x d')
  unfolding scan_end
  scan_end-Follows x d h r = elim (local.keeps x d more h r) [
    | inl (v, here, there) ↦ rw (here, there) ((refl, omega arith, omega arith), inr refl)
    | inr (e, here, there) ↦ rw (here, there) (inr refl)
  ]

  scan-Follows :
      (x : LfsValue T S) (d : Decoder) (rest : Bytes)
      → IsValid d
      → IsReady x d.i
      → drop d.i d.b ≡ rest
      → Follows X IsReady
          (complete o)
          more
          d
          (scan o x (extend d more) (rest ++ more))
          (scan o x d rest)
  scan-Follows x d [] v r e = rw (scan_nil o x d) (
    Advances-refl d v.1,
    r,
    inr (
        sym (
          complete-scan o x (extend d more) more (extend-IsValid d more v)
            (rw (drop-append d.i d.b more v.1, e)))),
  )
  scan-Follows x d (c ∷ rest) v r e =
      let within : d.i < length d.b = omega (arith, ap length e, length-drop d.i d.b) in
      elim (Bool-cases (c == lf)) [
        | inl line_feed ↦
            rw
              (
                scan_line_feed o x d c rest line_feed,
                scan_line_feed o x (extend d more) c (rest ++ more) line_feed,
              )
              (scan_end-Follows x d within r)
        | inr other ↦ elim (Bool-cases ((updated o x c).1)) [
          | inl accepted ↦
              rw
                (
                  scan_accepted o x d c rest other accepted,
                  scan_accepted o x (extend d more) c (rest ++ more) other accepted,
                )
                (Follows-from X IsReady (complete o) more d (decoder d.b (d.i + 1)) _ _
                  (refl, omega arith, omega arith)
                  (scan-Follows ((updated o x c).0) (decoder d.b (d.i + 1)) rest (v.0, omega arith)
                    (local.ready_updated x d.i c r) (drop-next d.i d.b e)))
          | inr refused ↦
              rw
                (
                  scan_refused o x d c rest other refused,
                  scan_refused o x (extend d more) c (rest ++ more) other refused,
                )
                (inr refl)
        ]
      ]

  -- With more bytes behind the buffer, a result and an error stay what they are, and what is pending
  -- goes on to the outcome of the whole. The object never panics.
  pub complete-Follows :
      (x : LfsValue T S) (d : Decoder)
      → IsValid d
      → IsReady x d.i
      → Follows X IsReady (complete o) more d (complete o x (extend d more)) (complete o x d)
  complete-Follows x d v r =
      rw
        (
          complete-scan o x d (drop d.i d.b) v refl,
          complete-scan o x (extend d more) (drop d.i d.b ++ more) (extend-IsValid d more v)
              (drop-append d.i d.b more v.1),
        )
        (scan-Follows x d (drop d.i d.b) v r refl)
