-- ===== src/Pool/Tcp.antt =====
-- `ConnectionMgrTcp` of src/pool.rs, with the pools of such managers.
use client_rust.Prelude.{ℕ, Bool, false}
use client_rust.Std.{FloatParse}
use client_rust.Itoa.{Itoa}
use client_rust.Handshake.{Config}
use client_rust.Io.{TcpConnection, Run}
use client_rust.Io.Aio.{ReadExact}
use client_rust.Io.Chunks.{Verdict}
use client_rust.Io.Connect as Connections
use client_rust.Io.Connect.{TcpConnect}
use client_rust.Pool.{status, status_async}

-- `struct ConnectionMgrTcp`.
pub record ConnectionMgrTcp : Type 0 where
  pub config : Config

unfoldable pub new : Config → ConnectionMgrTcp
new config = record { config = config }

-- `get` and `get_async`: `build` is `builder().max_size(pool_size).build(mgr)` of the crate.
unfoldable pub get : {Pool : Type 0} → (ℕ → ConnectionMgrTcp → Pool) → ℕ → Config → Pool
get build pool_size config = build pool_size (new config)

unfoldable pub get_async : {Pool : Type 0} → (ℕ → ConnectionMgrTcp → Pool) → ℕ → Config → Pool
get_async build pool_size config = build pool_size (new config)

-- `r2d2::ManageConnection`.
unfoldable pub connect : TcpConnect → Itoa → ConnectionMgrTcp → Verdict TcpConnection
connect tcp itoa self = Connections.connect tcp itoa self.config

unfoldable pub is_valid : FloatParse → Itoa → ConnectionMgrTcp → TcpConnection → Run (Unit {0})
is_valid fp itoa self conn = status fp itoa conn

unfoldable pub has_broken : ConnectionMgrTcp → TcpConnection → Bool
has_broken self conn = false

-- `bb8::ManageConnection`.
unfoldable pub connect_async :
    TcpConnect → ReadExact → Itoa → ConnectionMgrTcp → Verdict TcpConnection
connect_async tcp read_exact_async itoa self =
    Connections.connect_async tcp itoa self.config read_exact_async

unfoldable pub is_valid_async :
    FloatParse → Itoa → ConnectionMgrTcp → TcpConnection → Run (Unit {0})
is_valid_async fp itoa self conn = status_async fp itoa conn

unfoldable pub has_broken_async : ConnectionMgrTcp → TcpConnection → Bool
has_broken_async self conn = false
