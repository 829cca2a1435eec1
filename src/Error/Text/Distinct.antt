-- ===== src/Error/Text/Distinct.antt =====
-- The texts of src/error.rs tell the errors apart.
use client_rust.Prelude.{
  drop, ℕ, zero, suc, [], ◌∷◌, arith, ◌≡◌, ◌≢◌, refl, sym, ap, Bytes, ◌++◌, codes,
}
use client_rust.Error.{
  ProtocolError, invalid_server_response_for_data, invalid_server_response_unknown_data_type,
  invalid_packet, ParseError, type_mismatch, response_mismatch, ConnectionSetupError,
  handshake_error, invalid_server_handshake, Error, io_error, connection_setup_err, protocol_error,
  server_error, parse_error,
}
use client_rust.Error.Text.{StdText, protocol_text, parse_text, setup_text, error_text}

-- A text of its own, which is none of those that are built in.
abbrev pub Own : StdText → Error → Type 0
Own std (connection_setup_err (ConnectionSetupError.other s)) =
    ((k : ℕ) → s ≢ codes "handshake error code " ++ std.number_text k)
    × (s ≢ codes "server sent invalid handshake")
Own std (parse_error (ParseError.other s)) =
    (s ≢ codes "data type mismatch") × (s ≢ codes "response type mismatch")
Own std _ = Unit

-- The same error, where those of the standard library are told by their texts.
abbrev pub Same : StdText → Error → Error → Type 0
Same std (io_error e) (io_error e') = std.io_text e ≡ std.io_text e'
Same std e e' = e ≡ e'

-- The character at a place.
abbrev at : ℕ → Bytes → ℕ
at i [] = 0
at zero (c ∷ s) = c
at (suc i) (c ∷ s) = at i s

protocol_text-injective : (a b : ProtocolError) → protocol_text a ≡ protocol_text b → a ≡ b
unfolding protocol_text
protocol_text-injective invalid_server_response_for_data invalid_server_response_for_data h = refl
protocol_text-injective invalid_server_response_unknown_data_type
      invalid_server_response_unknown_data_type h =
    refl
protocol_text-injective invalid_packet invalid_packet h = refl
protocol_text-injective a b h = absurd (omega (arith, ap (at 8) h))

parse_text-injective :
    (std : StdText) (a b : ParseError)
    → Own std (parse_error a)
    → Own std (parse_error b)
    → parse_text a ≡ parse_text b
    → a ≡ b
unfolding parse_text
parse_text-injective std type_mismatch type_mismatch u v h = refl
parse_text-injective std type_mismatch response_mismatch u v h = absurd (omega (arith, ap (at 0) h))
parse_text-injective std type_mismatch (ParseError.other s) u v h = absurd (v.0 (sym h))
parse_text-injective std response_mismatch type_mismatch u v h = absurd (omega (arith, ap (at 0) h))
parse_text-injective std response_mismatch response_mismatch u v h = refl
parse_text-injective std response_mismatch (ParseError.other s) u v h = absurd (v.1 (sym h))
parse_text-injective std (ParseError.other s) type_mismatch u v h = absurd (u.0 h)
parse_text-injective std (ParseError.other s) response_mismatch u v h = absurd (u.1 h)
parse_text-injective std (ParseError.other s) (ParseError.other t) u v h = ap ParseError.other h

module _ (std : StdText)
    (number_injective : (m n : ℕ) → std.number_text m ≡ std.number_text n → m ≡ n) where
  setup_text-injective :
      (a b : ConnectionSetupError)
      → Own std (connection_setup_err a)
      → Own std (connection_setup_err b)
      → setup_text std a ≡ setup_text std b
      → a ≡ b
  unfolding setup_text
  setup_text-injective (ConnectionSetupError.other s) (ConnectionSetupError.other t) u v h =
      ap ConnectionSetupError.other h
  setup_text-injective (ConnectionSetupError.other s) (handshake_error k) u v h = absurd (u.0 k h)
  setup_text-injective (ConnectionSetupError.other s) invalid_server_handshake u v h =
      absurd (u.1 h)
  setup_text-injective (handshake_error k) (ConnectionSetupError.other t) u v h =
      absurd (v.0 k (sym h))
  setup_text-injective (handshake_error k) (handshake_error l) u v h =
      ap handshake_error (number_injective k l (cc))
  setup_text-injective (handshake_error k) invalid_server_handshake u v h =
      absurd (omega (arith, ap (at 0) h))
  setup_text-injective invalid_server_handshake (ConnectionSetupError.other t) u v h =
      absurd (v.1 (sym h))
  setup_text-injective invalid_server_handshake (handshake_error l) u v h =
      absurd (omega (arith, ap (at 0) h))
  setup_text-injective invalid_server_handshake invalid_server_handshake u v h = refl

  -- Two errors with one text are the same error, with what they hold: the texts of the variants differ, and
  -- so do those within a variant. It is asked that different numbers have different texts, and that the free
  -- text of an error is none of the texts that its kind of error has built in; errors of the standard library
  -- are told only by their own texts.
  pub error_text-injective :
      (a b : Error) → Own std a → Own std b → error_text std a ≡ error_text std b → Same std a b
  unfolding error_text
  error_text-injective (io_error a) (io_error b) u v h = cc
  error_text-injective (connection_setup_err a) (connection_setup_err b) u v h =
      ap connection_setup_err (setup_text-injective a b u v (cc))
  error_text-injective (protocol_error a) (protocol_error b) u v h =
      ap protocol_error (protocol_text-injective a b (cc))
  error_text-injective (server_error a) (server_error b) u v h =
      ap server_error (number_injective a b (cc))
  error_text-injective (parse_error a) (parse_error b) u v h =
      ap parse_error (parse_text-injective std a b u v (ap (drop 25) h))
  error_text-injective a b u v h = absurd (omega (arith, ap (at 0) h))
