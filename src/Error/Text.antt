-- ===== src/Error/Text.antt =====
-- The implementations of `Display` in src/error.rs: the texts of the errors.
pub mod Distinct
use client_rust.Prelude.{
  ℕ, ◌≡◌, refl, Bytes, Option, none, some, [], ◌∷◌, ◌++◌, codes, List, ◌==◌, if◌then◌else◌,
}
use client_rust.Error.{
  ProtocolError, invalid_server_response_for_data, invalid_server_response_unknown_data_type,
  invalid_packet, ParseError, type_mismatch, response_mismatch, ConnectionSetupError,
  handshake_error, invalid_server_handshake, IoError, Error, io_error, connection_setup_err,
  protocol_error, server_error, parse_error,
}

-- The texts of the standard library: of an `std::io::Error`, and of an integer.
pub record StdText : Type 0 where
  pub io_text : IoError → Bytes
  pub number_text : ℕ → Bytes

unfoldable pub protocol_text : ProtocolError → Bytes
protocol_text invalid_server_response_for_data = codes "invalid data received from server"
protocol_text invalid_server_response_unknown_data_type =
    codes "new or unknown data type received from server"
protocol_text invalid_packet = codes "invalid packet received from server"

unfoldable pub parse_text : ParseError → Bytes
parse_text type_mismatch = codes "data type mismatch"
parse_text response_mismatch = codes "response type mismatch"
parse_text (ParseError.other e) = e

module _ (std : StdText) where
  unfoldable pub setup_text : ConnectionSetupError → Bytes
  setup_text (ConnectionSetupError.other e) = e
  setup_text (handshake_error e) = codes "handshake error code " ++ std.number_text e
  setup_text invalid_server_handshake = codes "server sent invalid handshake"

  -- `<Error as Display>::fmt`.
  unfoldable pub error_text : Error → Bytes
  error_text (io_error e) = codes "io error: " ++ std.io_text e
  error_text (connection_setup_err e) = codes "connection setup error: " ++ setup_text e
  error_text (protocol_error e) = codes "protocol error: " ++ protocol_text e
  error_text (server_error e) = codes "server error: " ++ std.number_text e
  error_text (parse_error e) = codes "application parse error: " ++ parse_text e
