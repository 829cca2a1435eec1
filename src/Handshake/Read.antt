-- ===== src/Handshake/Read.antt =====
-- A reader for the handshake of the client, and the answers of the server, of src/protocol/handshake.rs.
use client_rust.Prelude.{
  ℕ, ◌≡◌, Bytes, Option, none, some, ◌∷◌, ◌++◌, length, append_assoc, lf, ◌↔◌, arith,
}
use client_rust.Error.{ok, err, connection_setup_err, handshake_error}
use client_rust.Itoa.{Itoa}
use client_rust.Query.{pushlen}
use client_rust.Query.Wire.{read_line, split_at, read_line-magnitude, split_at-length}
use client_rust.Handshake.{ProtocolVersion, v2_0, hs_block, Config, client_handshake, parse, accept}

infixl 5 ◌>>=◌
abbrev ◌>>=◌ : {A B : Type 0} → Option A → (A → Option B) → Option B
none >>= f = none
some a >>= f = f a

-- The six bytes of the version, the two lengths, and the two texts, with what follows them.
pub read_handshake : Bytes → Option (Bytes × Bytes × Bytes × Bytes)
read_handshake s = split_at 6 s >>= λ (hs, s₁). read_line 0 s₁ >>= λ (ulen, s₂).
    read_line 0 s₂ >>= λ (plen, s₃). split_at ulen s₃ >>= λ (username, s₄).
    split_at plen s₄ >>= λ (password, rest). some (hs, username, password, rest)

client_handshake_lem :
    (itoa : Itoa) (cfg : Config) (rest : Bytes)
    → client_handshake itoa cfg ++ rest
      ≡ hs_block cfg.protocol
        ++ (itoa.format (length cfg.username)
            ++ lf
              ∷ (itoa.format (length cfg.password)
                  ++ lf ∷ (cfg.username ++ (cfg.password ++ rest))))
unfolding client_handshake pushlen
client_handshake_lem itoa cfg rest = simp append_assoc

split_block :
    (v : ProtocolVersion) (s : Bytes) → split_at 6 (hs_block v ++ s) ≡ some (hs_block v, s)
unfolding hs_block
split_block v2_0 s = split_at-length (hs_block v2_0) s

-- What the client sends to set a connection up is read back as the version's block, the user name and
-- the password, with nothing of what follows it.
pub read_handshake-client_handshake :
    (itoa : Itoa) (cfg : Config) (rest : Bytes)
    → read_handshake (client_handshake itoa cfg ++ rest)
      ≡ some (hs_block cfg.protocol, cfg.username, cfg.password, rest)
unfolding read_handshake
read_handshake-client_handshake itoa cfg rest =
    let u = cfg.username in
    let p = cfg.password in
    rw (
      client_handshake_lem itoa cfg rest,
      split_block cfg.protocol
          (itoa.format (length u) ++ lf ∷ (itoa.format (length p) ++ lf ∷ (u ++ (p ++ rest)))),
      read_line-magnitude (itoa.format (length u)) (length u)
          (itoa.format (length p) ++ lf ∷ (u ++ (p ++ rest))) (itoa.format_value (length u)),
      read_line-magnitude (itoa.format (length p)) (length p) (u ++ (p ++ rest))
          (itoa.format_value (length p)),
      split_at-length u (p ++ rest),
      split_at-length p rest,
    )

-- A connection is set up exactly when the server answers with its letter and two zeros, whatever its
-- message is, and it is refused with the server's code exactly when the third byte is one.
pub accept-parse :
    (h major status msg code : ℕ)
    → ((accept (parse h major status msg) ≡ ok tt) ↔ (h ≡ b'H') × (major ≡ 0) × (status ≡ 0))
      × ((accept (parse h major status msg) ≡ err (connection_setup_err (handshake_error code)))
          ↔ (h ≡ b'H') × (major ≡ 0) × (status ≡ 1) × (msg ≡ code))
unfolding accept parse
accept-parse h major status msg code = ground arith
