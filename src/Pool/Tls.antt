-- ===== src/Pool/Tls.antt =====
-- `ConnectionMgrTls` of src/pool.rs, with the pools of such managers.
use client_rust.Prelude.{ℕ, Bool, false, Bytes}
use client_rust.Std.{FloatParse}
use client_rust.Itoa.{Itoa}
use client_rust.Handshake.{Config}
use client_rust.Io.{TcpConnection, Run}
use client_rust.Io.Aio.{ReadExact}
use client_rust.Io.Chunks.{Verdict}
use client_rust.Io.Connect as Connections
use client_rust.Io.Connect.{TcpConnect, Tls}
use client_rust.Pool.{status, status_async}

-- `struct ConnectionMgrTls`.
pub record ConnectionMgrTls : Type 0 where
  pub config : Config
  pub pem_cert : Bytes

unfoldable pub new : Config → Bytes → ConnectionMgrTls
new config pem_cert = record { config = config; pem_cert = pem_cert }

-- `get_tls` and `get_tls_async`: `build` is `builder().max_size(pool_size).build(mgr)` of the crate.
unfoldable pub get_tls : {Pool : Type 0} → (ℕ → ConnectionMgrTls → Pool) → ℕ → Config → Bytes → Pool
get_tls build pool_size config pem_cert = build pool_size (new config pem_cert)

unfoldable pub get_tls_async :
    {Pool : Type 0} → (ℕ → ConnectionMgrTls → Pool) → ℕ → Config → Bytes → Pool
get_tls_async build pool_size config pem_cert = build pool_size (new config pem_cert)

module _ {Certificate Connector : Type 0} (tcp : TcpConnect) (tls : Tls Certificate Connector) where
  -- `connect` of `r2d2::ManageConnection` and of `bb8::ManageConnection`.
  unfoldable pub connect : Itoa → ConnectionMgrTls → Verdict TcpConnection
  connect itoa self = Connections.connect_tls tcp itoa self.config tls self.pem_cert

  unfoldable pub connect_async : ReadExact → Itoa → ConnectionMgrTls → Verdict TcpConnection
  connect_async read_exact_async itoa self =
      Connections.connect_tls_async tcp itoa self.config tls self.pem_cert read_exact_async

unfoldable pub is_valid : FloatParse → Itoa → ConnectionMgrTls → TcpConnection → Run (Unit {0})
is_valid fp itoa self conn = status fp itoa conn

unfoldable pub has_broken : ConnectionMgrTls → TcpConnection → Bool
has_broken self conn = false

unfoldable pub is_valid_async :
    FloatParse → Itoa → ConnectionMgrTls → TcpConnection → Run (Unit {0})
is_valid_async fp itoa self conn = status_async fp itoa conn

unfoldable pub has_broken_async : ConnectionMgrTls → TcpConnection → Bool
has_broken_async self conn = false
