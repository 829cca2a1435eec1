-- ===== src/Io/Sessions.antt =====
-- How connecting over TLS ends, in src/io/sync.rs and src/io/aio.rs, for each thing that can happen on the
-- way.
use client_rust.Prelude.{
  ◌≡◌, ◌≢◌, ap, ◌∙◌, Bytes, All, List, ◌∷◌, [], ◌++◌, map, codes, ◌⊎◌, inl, inr, Option, some,
}
use client_rust.Error.{
  IoError, interrupted, io_error, connection_setup_err, err, ConnectionSetupError,
}
use client_rust.Itoa.{Itoa}
use client_rust.Handshake.{Config}
use client_rust.Io.{Stream, received}
use client_rust.Io.Setup.{handshake}
use client_rust.Io.Aio.{ReadExact, handshake_async}
use client_rust.Io.Chunks.{Verdict, answered, End, broken, end_events, concat, NonEmpty}
use client_rust.Io.Answer.{
  seen, exact_answer, accepted, accepted_lem, with_answer_lem, setup_answer, verdict-handshake,
}
use client_rust.Io.Connect.{
  TcpConnect, Tls, new, connect_tls, connect_tls_async, opened, opened-established, Sends,
}

-- Where an attempt to connect ends: the host is not reached; a text of the TLS library refuses the
-- certificate, the connector or the TLS handshake; the first write fails; or the server sends pieces.
pub data Attempt : Type 0 where
  unreachable : IoError → Attempt
  bad_certificate : Bytes → Attempt
  bad_connector : Bytes → Attempt
  refused_session : Bytes → Attempt
  unwritable : IoError → Attempt
  session : List Bytes → End → Attempt

-- The answer that each should have.
abbrev pub outcome : Attempt → Verdict (Unit {0})
outcome (unreachable e) = answered (err (io_error e))
outcome (bad_certificate e) = answered (
    err (
      connection_setup_err
        (ConnectionSetupError.other (codes "failed to parse certificate: " ++ e))))
outcome (bad_connector e) = answered (
    err (
      connection_setup_err
        (ConnectionSetupError.other (codes "failed to set up TLS acceptor: " ++ e))))
outcome (refused_session e) =
    answered (
      err (connection_setup_err (ConnectionSetupError.other (codes "TLS handshake failed: " ++ e))))
outcome (unwritable e) = answered (err (io_error e))
outcome (session cs end) = setup_answer end (concat cs)

-- tokio's `read_exact` gives the first four bytes of the pieces, or waits, or reports the end of the stream
-- as an unexpected one, or the error of a broken one; for an interruption nothing is asked.
abbrev pub ReadsFour : ReadExact → Type 0
ReadsFour read_exact_async =
    (cs : List Bytes) (end : End)
    → All NonEmpty cs
    → end ≢ broken interrupted
    → seen (read_exact_async (map received cs ++ end_events end) 4 [])
      ≡ exact_answer end 4 [] (concat cs)

abbrev pub Uninterrupted : Attempt → Type 0
Uninterrupted (session cs end) = end ≢ broken interrupted
Uninterrupted _ = Unit

module _ (tcp : TcpConnect) (cfg : Config) {Certificate Connector : Type 0}
    (tls : Tls Certificate Connector) (cert : Bytes) where
  -- The stages that the libraries let an attempt pass, up to a stream over TLS.
  abbrev pub Reached : Stream → Type 0
  Reached stream = tcp cfg.host cfg.port ≡ inr stream

  abbrev pub Certified : Certificate → Type 0
  Certified certificate = tls.from_pem cert ≡ inr certificate

  module _ (session_over : Connector → Bytes → Stream → Bytes ⊎ Stream) where
    abbrev pub Connected : Stream → Type 0
    Connected con =
        (stream : Stream) × (certificate : Certificate) × (connector : Connector) × Reached stream
        × Certified certificate
        × (tls.build certificate ≡ inr connector)
        × (session_over connector cfg.host stream ≡ inr con)

    -- What the libraries and the server do in an attempt, with `session_over` for the TLS handshake.
    abbrev pub Happens : Attempt → Type 0
    Happens (unreachable e) = tcp cfg.host cfg.port ≡ inl e
    Happens (bad_certificate e) = (stream : Stream) × Reached stream × (tls.from_pem cert ≡ inl e)
    Happens (bad_connector e) =
        (stream : Stream) × (certificate : Certificate) × Reached stream
        × Certified certificate
        × (tls.build certificate ≡ inl e)
    Happens (refused_session e) =
        (stream : Stream) × (certificate : Certificate) × (connector : Connector) × Reached stream
        × Certified certificate
        × (tls.build certificate ≡ inr connector)
        × (session_over connector cfg.host stream ≡ inl e)
    Happens (unwritable e) =
        (con : Stream) × (rest : List (Option IoError)) × Connected con
        × (con.write_errors ≡ some e ∷ rest)
    Happens (session cs end) = (con : Stream) × Connected con × Sends con cs end

  -- Connecting over TLS answers as the attempt goes: with the error of the stage that fails, by its own
  -- text, and otherwise by the first four bytes of the server, in whatever pieces they come.
  pub opened-connect_tls :
      (itoa : Itoa) (a : Attempt)
      → Happens tls.connect a
      → opened (connect_tls tcp itoa cfg tls cert) ≡ outcome a
  unfolding connect_tls handshake
  opened-connect_tls itoa (unreachable e) h = rw h
  opened-connect_tls itoa (bad_certificate e) (stream, h, p) = rw (h, p)
  opened-connect_tls itoa (bad_connector e) (stream, certificate, h, p, b) = rw (h, p, b)
  opened-connect_tls itoa (refused_session e) (stream, certificate, connector, h, p, b, k) =
      rw (h, p, b, k)
  opened-connect_tls itoa (unwritable e)
        (con, rest, (stream, certificate, connector, h, p, b, k), w) =
      rw (h, p, b, k) (rw w)
  opened-connect_tls itoa (session cs end)
        (con, (stream, certificate, connector, h, p, b, k), (writes, events, v)) =
      rw (h, p, b, k)
        (opened-established (handshake itoa cfg (new con))
          ∙ verdict-handshake itoa cfg (new con) cs end writes events v)

  -- The asynchronous client, which makes its connector twice, answers an attempt in the same way: with the
  -- same error and text of the stage that fails, and otherwise by the first four bytes of the server. It is
  -- asked that tokio reads exactly four bytes of those that come, and that no read is interrupted.
  pub opened-connect_tls_async :
      (itoa : Itoa) (read_exact_async : ReadExact) (a : Attempt)
      → ReadsFour read_exact_async
      → Uninterrupted a
      → Happens tls.connect_async a
      → opened (connect_tls_async tcp itoa cfg tls cert read_exact_async) ≡ outcome a
  unfolding connect_tls_async handshake_async
  opened-connect_tls_async itoa r (unreachable e) law u h = rw h
  opened-connect_tls_async itoa r (bad_certificate e) law u (stream, h, p) = rw (h, p)
  opened-connect_tls_async itoa r (bad_connector e) law u (stream, certificate, h, p, b) =
      rw (h, p, b)
  opened-connect_tls_async itoa r (refused_session e) law u
        (stream, certificate, connector, h, p, b, k) =
      rw (h, p, b, k)
  opened-connect_tls_async itoa r (unwritable e) law u
        (con, rest, (stream, certificate, connector, h, p, b, k), w) =
      rw (h, p, b, k) (rw w)
  opened-connect_tls_async itoa r (session cs end) law u
        (con, (stream, certificate, connector, h, p, b, k), (writes, events, v)) =
      rw (h, p, b, k)
        (opened-established (handshake_async r itoa cfg (new con))
          ∙ rw (writes, events)
              (with_answer_lem _ (r (map received cs ++ end_events end) 4 [])
                ∙ ap accepted (law cs end v u)
                ∙ accepted_lem end (concat cs)))
