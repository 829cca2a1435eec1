-- ===== src/Io/Answer.antt =====
-- `_handshake` of src/io/sync.rs, over the pieces that its reads give.
use client_rust.Prelude.{
  ℕ, zero, suc, ◌-◌, ◌≤◌, ◌<◌, ◌≡◌, refl, ap, ◌∙◌, All, Bool, Bytes, List, [], ◌∷◌, ◌++◌, map,
  length, take, length-append, append_assoc, append-nil, take-append, ltb, leb, ◌==◌, true, false,
  arith, dec_lt,
}
use client_rust.Error.{unexpected_eof, interrupted, connection_reset, os_error, ok, err, io_error}
use client_rust.Itoa.{Itoa}
use client_rust.Handshake.{Config, parse, accept}
use client_rust.Io.{ReadEvent, received, failed, TcpConnection}
use client_rust.Io.Setup.{Reading, got, broke, starved, read_exact, with_answer, handshake}
use client_rust.Io.Chunks.{
  Verdict, answered, blocked, crashed, verdict, End, silent, closed, broken, end_events, concat,
  NonEmpty,
}

-- What is seen of a reading: its bytes, not the events that are left.
abbrev pub seen : Reading → Verdict Bytes
seen (got s events) = answered (ok s)
seen (broke e events) = answered (err (io_error e))
seen starved = blocked

-- The stream ended before the answer: an interruption is no error for `read_exact`.
abbrev pub too_short {ℓ} : {A : Type ℓ} → End → Verdict A
too_short silent = blocked
too_short closed = answered (err (io_error unexpected_eof))
too_short (broken interrupted) = blocked
too_short (broken e) = answered (err (io_error e))

abbrev pub either {ℓ} : {A : Type ℓ} → Bool → A → A → A
either true x y = x
either false x y = y

-- The first `n` bytes of `s`, behind those that were read.
abbrev pub exact_answer : End → ℕ → Bytes → Bytes → Verdict Bytes
exact_answer end n acc s =
    either (leb n (length s)) (answered (ok (acc ++ take n s))) (too_short end)

read_exact-end :
    (end : End) (n : ℕ) (acc : Bytes)
    → seen (read_exact (end_events end) (suc n) acc) ≡ too_short end
unfolding read_exact
read_exact-end silent n acc = refl
read_exact-end closed n acc = refl
read_exact-end (broken interrupted) n acc = refl
read_exact-end (broken connection_reset) n acc = refl
read_exact-end (broken unexpected_eof) n acc = refl
read_exact-end (broken (os_error k)) n acc = refl

read_exact-zero :
    (events : List ReadEvent) (acc : Bytes) → read_exact events zero acc ≡ got acc events
unfolding read_exact
read_exact-zero [] acc = refl
read_exact-zero (received c ∷ events) acc = refl
read_exact-zero (failed e ∷ events) acc = refl

take-past : (n : ℕ) (c s : Bytes) → length c ≤ n → take n (c ++ s) ≡ c ++ take (n - length c) s
take-past n [] s h = let same : n - 0 ≡ n = omega arith in rw same
take-past zero (x ∷ c) s h = absurd (omega arith)
take-past (suc n) (x ∷ c) s h =
    let same : suc n - suc (length c) ≡ n - length c = omega arith in
    rw (same, take-past n c s (omega arith))

-- A piece that holds more than is asked for, and one that does not.
read_exact-long :
    (n : ℕ) (c : Bytes) (events : List ReadEvent) (acc : Bytes)
    → suc n < length c
    → seen (read_exact (received c ∷ events) (suc n) acc) ≡ answered (ok (acc ++ take (suc n) c))
unfolding read_exact
read_exact-long n c events acc h =
    let full : (length c == 0) ≡ false = ground arith in
    let long : ltb (suc n) (length c) ≡ true = ground arith in rw (seen, read_exact, full, long)

read_exact-short :
    (n : ℕ) (c : Bytes) (events : List ReadEvent) (acc : Bytes)
    → NonEmpty c
    → length c ≤ suc n
    → read_exact (received c ∷ events) (suc n) acc ≡ read_exact events (suc n - length c) (acc ++ c)
unfolding read_exact
read_exact-short n c events acc p h =
    let full : (length c == 0) ≡ false = ground arith in
    let short : ltb (suc n) (length c) ≡ false = ground arith in rw (read_exact, full, short)

pub read_exact_lem :
    (cs : List Bytes) (end : End) (n : ℕ) (acc : Bytes)
    → All NonEmpty cs
    → seen (read_exact (map received cs ++ end_events end) n acc)
      ≡ exact_answer end n acc (concat cs)
read_exact_lem cs end zero acc v =
    let none_left : leb 0 (length (concat cs)) ≡ true = ground arith in
    rw (
      read_exact-zero (map received cs ++ end_events end) acc,
      exact_answer,
      none_left,
      append-nil acc,
    )
read_exact_lem [] end (suc n) acc v =
    let missing : leb (suc n) 0 ≡ false = ground arith in
    rw (read_exact-end end n acc, exact_answer, missing)
read_exact_lem (c ∷ cs) end (suc n) acc (p, v) =
    let rest : List ReadEvent = map received cs ++ end_events end in
    let next_bytes = read_exact_lem cs end (suc n - length c) (acc ++ c) v in
    elim (dec_lt (suc n) (length c)) [
      | yes h ↦
          let enough : leb (suc n) (length (c ++ concat cs)) ≡ true =
            ground (arith, length-append c (concat cs)) in
          rw (
            read_exact-long n c rest acc h,
            exact_answer,
            enough,
            take-append (suc n) c (concat cs) (omega arith),
          )
      | no h ↦
          let same : leb (suc n) (length (c ++ concat cs))
              ≡ leb (suc n - length c) (length (concat cs)) =
            ground (arith, length-append c (concat cs)) in
          rw (
            read_exact-short n c rest acc p (omega arith),
            next_bytes,
            exact_answer,
            same,
            take-past (suc n) c (concat cs) (omega arith),
            append_assoc acc c (take (suc n - length c) (concat cs)),
          )
    ]

-- The first four bytes decide.
abbrev pub setup_answer : End → Bytes → Verdict (Unit {0})
setup_answer end (h ∷ major ∷ status ∷ msg ∷ rest) = answered (accept (parse h major status msg))
setup_answer end _ = too_short end

abbrev pub accepted : Verdict Bytes → Verdict (Unit {0})
accepted (answered (ok (h ∷ major ∷ status ∷ msg ∷ []))) =
    answered (accept (parse h major status msg))
accepted (answered (err e)) = answered (err e)
accepted blocked = blocked
accepted _ = crashed

pub with_answer_lem :
    (self : TcpConnection) (r : Reading) → verdict (with_answer self r) ≡ accepted (seen r)
with_answer_lem self (got [] events) = refl
with_answer_lem self (got (h ∷ []) events) = refl
with_answer_lem self (got (h ∷ j ∷ []) events) = refl
with_answer_lem self (got (h ∷ j ∷ k ∷ []) events) = refl
with_answer_lem self (got (h ∷ j ∷ k ∷ m ∷ []) events) = refl
with_answer_lem self (got (h ∷ j ∷ k ∷ m ∷ n ∷ s) events) = refl
with_answer_lem self (broke e events) = refl
with_answer_lem self starved = refl

accepted-too_short : (end : End) → accepted (too_short end) ≡ too_short end
accepted-too_short silent = refl
accepted-too_short closed = refl
accepted-too_short (broken interrupted) = refl
accepted-too_short (broken connection_reset) = refl
accepted-too_short (broken unexpected_eof) = refl
accepted-too_short (broken (os_error k)) = refl

pub accepted_lem : (end : End) (s : Bytes) → accepted (exact_answer end 4 [] s) ≡ setup_answer end s
accepted_lem end [] = accepted-too_short end
accepted_lem end (h ∷ []) = accepted-too_short end
accepted_lem end (h ∷ j ∷ []) = accepted-too_short end
accepted_lem end (h ∷ j ∷ k ∷ []) = accepted-too_short end
accepted_lem end (h ∷ j ∷ k ∷ m ∷ s) =
    let enough : leb 4 (suc (suc (suc (suc (length s))))) ≡ true = ground arith in
    rw (accepted, exact_answer, enough)

-- The connection is accepted or refused by the first four bytes that the server sends, in whatever
-- pieces they are read and whatever follows them; with fewer bytes, setting it up waits on a silent
-- stream, and fails with an unexpected end on a closed one, or with the error of a broken one unless it
-- was only interrupted. It is asked that the client's handshake can be written, and that each piece holds
-- a byte.
pub verdict-handshake :
    (itoa : Itoa) (cfg : Config) (self : TcpConnection) (cs : List Bytes) (end : End)
    → self.con.write_errors ≡ []
    → self.con.events ≡ map received cs ++ end_events end
    → All NonEmpty cs
    → verdict (handshake itoa cfg self) ≡ setup_answer end (concat cs)
unfolding handshake
verdict-handshake itoa cfg self cs end writes events v =
    rw (writes, events)
      (with_answer_lem _ (read_exact (map received cs ++ end_events end) 4 [])
        ∙ ap accepted (read_exact_lem cs end 4 [] v)
        ∙ accepted_lem end (concat cs))
