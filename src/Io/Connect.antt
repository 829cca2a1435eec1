-- ===== src/Io/Connect.antt =====
-- How src/io/sync.rs and src/io/aio.rs establish connections, over TCP and over TLS.
use client_rust.Prelude.{ℕ, ◌≡◌, refl, ◌∙◌, Bytes, All, List, [], ◌++◌, map, codes, ◌⊎◌, inl, inr}
use client_rust.Error.{IoError, ok, err, ConnectionSetupError, from_io, from_setup}
use client_rust.Itoa.{Itoa}
use client_rust.Handshake.{Config}
use client_rust.Io.{Stream, received, TcpConnection, Run, returned, waiting, panicked, endless}
use client_rust.Io.Setup.{handshake}
use client_rust.Io.Aio.{ReadExact, handshake_async}
use client_rust.Io.Chunks.{
  Verdict, answered, blocked, crashed, hung, verdict, End, end_events, concat, NonEmpty,
}
use client_rust.Io.Answer.{setup_answer, verdict-handshake}

-- `TcpStream::connect` of a host and a port, of the standard library and of tokio.
abbrev pub TcpConnect : Type 0
TcpConnect = Bytes → ℕ → IoError ⊎ Stream

-- What the TLS libraries give, or the text of their error: a certificate from its PEM text; the connector
-- of a builder with that certificate, which accepts invalid host names; and a stream over a stream.
pub record Tls (Certificate Connector : Type 0) : Type 0 where
  pub from_pem : Bytes → Bytes ⊎ Certificate
  pub build : Certificate → Bytes ⊎ Connector
  pub connect : Connector → Bytes → Stream → Bytes ⊎ Stream
  pub connect_async : Connector → Bytes → Stream → Bytes ⊎ Stream

-- `TcpConnection::new`.
abbrev pub new : Stream → TcpConnection
new con = record { con = con; buf = [] }

-- `_handshake` consumes the connection and gives it back.
abbrev pub established : Run (Unit {0}) → Verdict TcpConnection
established (returned (ok u) self) = answered (ok self)
established (returned (err e) self) = answered (err e)
established (waiting self) = blocked
established panicked = crashed
established endless = hung

-- `?` on what a library gives, over what follows it.
abbrev pub or_io : {A : Type 0} → IoError ⊎ A → (A → Verdict TcpConnection) → Verdict TcpConnection
or_io (inl e) k = answered (err (from_io e))
or_io (inr a) k = k a

-- `.map_err(|e| ConnectionSetupError::Other(format!("...: {e}")))?`.
abbrev pub or_setup :
    {A : Type 0} → Bytes → Bytes ⊎ A → (A → Verdict TcpConnection) → Verdict TcpConnection
or_setup text (inl e) k = answered (err (from_setup (ConnectionSetupError.other (text ++ e))))
or_setup text (inr a) k = k a

module _ (tcp : TcpConnect) (itoa : Itoa) (cfg : Config) where
  -- `Config::connect`.
  unfoldable pub connect : Verdict TcpConnection
  connect = or_io (tcp cfg.host cfg.port) λ con. established (handshake itoa cfg (new con))

  -- `Config::connect_async`.
  unfoldable pub connect_async : ReadExact → Verdict TcpConnection
  connect_async read_exact_async =
      or_io (tcp cfg.host cfg.port)
        λ con. established (handshake_async read_exact_async itoa cfg (new con))

  module _ {Certificate Connector : Type 0} (tls : Tls Certificate Connector) (cert : Bytes) where
    -- `Config::connect_tls`.
    unfoldable pub connect_tls : Verdict TcpConnection
    connect_tls = or_io (tcp cfg.host cfg.port) λ stream.
        or_setup (codes "failed to parse certificate: ") (tls.from_pem cert) λ certificate.
          or_setup (codes "failed to set up TLS acceptor: ") (tls.build certificate) λ connector.
            or_setup (codes "TLS handshake failed: ") (tls.connect connector cfg.host stream)
              λ con. established (handshake itoa cfg (new con))

    -- `Config::connect_tls_async`: the first connector is dropped.
    unfoldable pub connect_tls_async : ReadExact → Verdict TcpConnection
    connect_tls_async read_exact_async = or_io (tcp cfg.host cfg.port) λ stream.
        or_setup (codes "failed to parse certificate: ") (tls.from_pem cert) λ certificate.
          or_setup (codes "failed to set up TLS acceptor: ") (tls.build certificate) λ _.
            or_setup (codes "failed to set up TLS acceptor: ") (tls.build certificate) λ connector.
              or_setup (codes "TLS handshake failed: ")
                (tls.connect_async connector cfg.host stream)
                λ con. established (handshake_async read_exact_async itoa cfg (new con))

-- Whether there is a connection, without it.
abbrev pub opened : Verdict TcpConnection → Verdict (Unit {0})
opened (answered (ok self)) = answered (ok tt)
opened (answered (err e)) = answered (err e)
opened blocked = blocked
opened crashed = crashed
opened hung = hung

pub opened-established : (run : Run (Unit {0})) → opened (established run) ≡ verdict run
opened-established (returned (ok tt) self) = refl
opened-established (returned (err e) self) = refl
opened-established (waiting self) = refl
opened-established panicked = refl
opened-established endless = refl

-- A stream that the server's bytes `cs` come over, before its end; writing to it succeeds.
abbrev pub Sends : Stream → List Bytes → End → Type 0
Sends con cs end =
    (con.write_errors ≡ []) × (con.events ≡ map received cs ++ end_events end) × All NonEmpty cs

module _ (tcp : TcpConnect) (itoa : Itoa) (cfg : Config) where
  -- Whether `connect` opens a connection is decided by the first four bytes of the server, in whatever
  -- pieces they come over the stream that the host and port of the configuration lead to; writing to it
  -- succeeds, and each piece holds a byte.
  pub opened-connect :
      (con : Stream) (cs : List Bytes) (end : End)
      → tcp cfg.host cfg.port ≡ inr con
      → Sends con cs end
      → opened (connect tcp itoa cfg) ≡ setup_answer end (concat cs)
  unfolding connect
  opened-connect con cs end h (writes, events, v) = rw h (
      opened-established (handshake itoa cfg (new con))
      ∙ verdict-handshake itoa cfg (new con) cs end writes events v)
