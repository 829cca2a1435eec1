-- ===== src/Handshake.antt =====
-- src/config.rs and src/protocol/handshake.rs: the settings of a connection, what the client sends to
-- set it up, and how it reads the server's answer.
pub mod Read
use client_rust.Prelude.{
  ℕ, Bytes, true, false, [], ◌∷◌, ◌++◌, length, ◌==◌, ◌&&◌, if◌then◌else◌, codes,
}
use client_rust.Error.{
  Error, ConnectionSetupError, ClientResult, ok, err, connection_setup_err, handshake_error,
  invalid_server_handshake, from_setup,
}
use client_rust.Itoa.{Itoa}
use client_rust.Query.{pushlen}

-- `enum ProtocolVersion`.
pub data ProtocolVersion : Type 0 where
  v2_0 : ProtocolVersion

unfoldable pub hs_block : ProtocolVersion → Bytes
hs_block v2_0 = b'H' ∷ 0 ∷ 0 ∷ 0 ∷ 0 ∷ 0 ∷ []

-- `struct Config`.
pub record Config : Type 0 where
  pub host : Bytes
  pub port : ℕ
  pub username : Bytes
  pub password : Bytes
  pub protocol : ProtocolVersion

-- `Config::new`.
abbrev pub new : Bytes → ℕ → Bytes → Bytes → Config
new host port username password = record {
  host = host;
  port = port;
  username = username;
  password = password;
  protocol = v2_0;
}

abbrev pub default_host : Bytes
default_host = codes "127.0.0.1"

abbrev pub default_tcp_port : ℕ
default_tcp_port = 2003

-- `Config::new_default`.
abbrev pub new_default : Bytes → Bytes → Config
new_default username password = new default_host default_tcp_port username password

-- `ClientHandshake::new`: the bytes of the box.
unfoldable pub client_handshake : Itoa → Config → Bytes
client_handshake itoa cfg =
    let v = pushlen itoa (hs_block cfg.protocol) (length cfg.username) in
    (pushlen itoa v (length cfg.password) ++ cfg.username) ++ cfg.password

-- `enum ServerHandshake`.
pub data ServerHandshake : Type 0 where
  okay : ℕ → ServerHandshake
  error : ℕ → ServerHandshake

-- `ServerHandshake::parse`, of the four bytes of the array.
unfoldable pub parse : ℕ → ℕ → ℕ → ℕ → ClientResult ServerHandshake
parse h major status msg =
    if h == b'H' && (major == 0 && status == 0)
    then ok (okay msg)
    else if h == b'H' && (major == 0 && status == 1)
    then ok (error msg)
    else err (connection_setup_err invalid_server_handshake)

-- `_handshake`, once the answer has been read.
unfoldable pub accept : ClientResult ServerHandshake → ClientResult (Unit {0})
accept (ok (okay suggestion)) = ok tt
accept (ok (error e)) = err (from_setup (handshake_error e))
accept (err e) = err e
