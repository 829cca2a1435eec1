-- ===== src/Tests/Lines.antt =====
-- The theorems about handshakes and lines at concrete inputs.
use client_rust.Prelude.{ℕ, ◌≡◌, refl, true, some, [], ◌∷◌, ◌++◌, codes, arith, ◌↔◌}
use client_rust.Error.{ok, err, connection_setup_err, handshake_error}
use client_rust.Std.{parse_magnitude}
use client_rust.Itoa.Decimal.{decimal_itoa}
use client_rust.Handshake.{Config, v2_0, hs_block, client_handshake, parse, accept}
use client_rust.Handshake as Handshakes
use client_rust.Handshake.Read.{read_handshake, read_handshake-client_handshake, accept-parse}
use client_rust.Protocol.Cursor.{decoder}
use client_rust.Protocol.Lfs.{unsigned, complete}
use client_rust.Protocol.Lfs.{initialize}
use client_rust.Protocol.Lfs.Numbers.{Reads, complete-digits}
use client_rust.Protocol.Lfs.Scan.{scan, complete-scan}
use client_rust.Io.{received}
use client_rust.Io.Chunks.{verdict, closed}
use client_rust.Io.Setup.{handshake}
use client_rust.Io.Answer.{setup_answer, verdict-handshake}

abbrev config : Config
config = Handshakes.new (codes "127.0.0.1") 2003 (codes "root") (codes "password")

read_handshake-client_handshake_example :
    read_handshake (client_handshake decimal_itoa config ++ codes "S")
    ≡ some (hs_block v2_0, codes "root", codes "password", codes "S")
read_handshake-client_handshake_example =
    read_handshake-client_handshake decimal_itoa config (codes "S")

accept-parse_example :
    let h : ℕ = b'H' in
    let zero_ : ℕ = 0 in
    let one : ℕ = 1 in
    let three : ℕ = 3 in
    ((accept (parse h 0 1 3) ≡ ok tt) ↔ (h ≡ b'H') × (zero_ ≡ 0) × (one ≡ 0))
    × ((accept (parse h 0 1 3) ≡ err (connection_setup_err (handshake_error 3)))
        ↔ (h ≡ b'H') × (zero_ ≡ 0) × (one ≡ 1) × (three ≡ 3))
accept-parse_example = accept-parse b'H' 0 1 3 3

verdict-handshake_example :
    verdict (
      handshake decimal_itoa config (record {
        con = record {
          written = [];
          write_errors = [];
          events = received (b'H' ∷ 0 ∷ []) ∷ received (0 ∷ 1 ∷ 2 ∷ []) ∷ received [] ∷ [];
        };
        buf = [];
      }))
    ≡ setup_answer closed (b'H' ∷ 0 ∷ 0 ∷ 1 ∷ 2 ∷ [])
verdict-handshake_example =
    verdict-handshake decimal_itoa config
      (record {
        con = record {
          written = [];
          write_errors = [];
          events = received (b'H' ∷ 0 ∷ []) ∷ received (0 ∷ 1 ∷ 2 ∷ []) ∷ received [] ∷ [];
        };
        buf = [];
      })
      ((b'H' ∷ 0 ∷ []) ∷ (0 ∷ 1 ∷ 2 ∷ []) ∷ []) closed refl refl (omega arith, (omega arith, tt))

complete-scan_example :
    complete (unsigned 16) (record { v = 10; state = tt }) (decoder (codes "1096\n") 2)
    ≡ scan (unsigned 16) (record { v = 10; state = tt }) (decoder (codes "1096\n") 2) (codes "96\n")
complete-scan_example =
    complete-scan (unsigned 16) (record { v = 10; state = tt }) (decoder (codes "1096\n") 2)
      (codes "96\n") (omega arith) refl

number_300 : parse_magnitude (codes "300") ≡ some 300
unfolding parse_magnitude
number_300 = refl

complete-digits_example : Reads 16 true 300 (decoder (0x03 ∷ codes "300\n7\n") 5) (
    complete
      (unsigned 16)
      (initialize (unsigned 16) (decoder (0x03 ∷ codes "300\n7\n") 1))
      (decoder (0x03 ∷ codes "300\n7\n") 1))
complete-digits_example =
    complete-digits 16 (codes "300") 300 (decoder (0x03 ∷ codes "300\n7\n") 1) (codes "7\n")
      (omega arith, omega arith) refl number_300
