-- ===== src/Error.antt =====
-- src/error.rs and the error enumeration of src/protocol/mod.rs: the errors as data, and the `From`
-- conversions that `?` inserts.
pub mod Text
use client_rust.Prelude.{ℕ, Bytes}

-- `enum ProtocolError`.
pub data ProtocolError : Type 0 where
  invalid_server_response_for_data : ProtocolError
  invalid_server_response_unknown_data_type : ProtocolError
  invalid_packet : ProtocolError

-- `enum ParseError`.
pub data ParseError : Type 0 where
  type_mismatch : ParseError
  response_mismatch : ParseError
  other : Bytes → ParseError

-- `enum ConnectionSetupError`.
pub data ConnectionSetupError : Type 0 where
  other : Bytes → ConnectionSetupError
  handshake_error : ℕ → ConnectionSetupError
  invalid_server_handshake : ConnectionSetupError

-- `std::io::Error`: the kind that the client makes itself, the two that `read_exact` knows, and what a
-- socket reports.
pub data IoError : Type 0 where
  connection_reset : IoError
  interrupted : IoError
  unexpected_eof : IoError
  os_error : ℕ → IoError

-- `enum Error`.
pub data Error : Type 0 where
  io_error : IoError → Error
  connection_setup_err : ConnectionSetupError → Error
  protocol_error : ProtocolError → Error
  server_error : ℕ → Error
  parse_error : ParseError → Error

-- `ClientResult<T>`.
pub data ClientResult {ℓ} (A : Type ℓ) : Type ℓ where
  ok : A → ClientResult A
  err : Error → ClientResult A

-- The `?` operator and `Result::and_then`.
infixl 5 ◌>>=◌
abbrev pub ◌>>=◌ {ℓ κ} :
    {A : Type ℓ} {B : Type κ} → ClientResult A → (A → ClientResult B) → ClientResult B
ok a >>= f = f a
err e >>= f = err e

-- The `From` implementations for `Error`.
abbrev pub from_io : IoError → Error
from_io e = io_error e

abbrev pub from_protocol : ProtocolError → Error
from_protocol e = protocol_error e

abbrev pub from_setup : ConnectionSetupError → Error
from_setup e = connection_setup_err e
