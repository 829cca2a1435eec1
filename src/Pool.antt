-- ===== src/Pool.antt =====
-- src/pool.rs: the managers that the pools of r2d2 and bb8 are made of. The pools are those crates' own.
pub mod Tcp
pub mod Tls
pub mod Health
use client_rust.Prelude.{ℕ, Bytes, codes}
use client_rust.Std.{FloatParse}
use client_rust.Itoa.{Itoa}
use client_rust.Query
use client_rust.Response.Types.{unit}
use client_rust.Io.{TcpConnection, Run}
use client_rust.Io.Setup.{query_parse}
use client_rust.Io.Aio.{query_parse_async}

-- `QUERY_SYSCTL_STATUS`.
abbrev pub query_sysctl_status : Bytes
query_sysctl_status = codes "sysctl report status"

-- `conn.query_parse::<()>(&query!(QUERY_SYSCTL_STATUS))`, of both clients; parsing a response into the
-- unit calls no `from_value`.
abbrev pub status : FloatParse → Itoa → TcpConnection → Run (Unit {0})
status fp itoa conn = query_parse fp itoa 0 unit (Query.new query_sysctl_status) conn

abbrev pub status_async : FloatParse → Itoa → TcpConnection → Run (Unit {0})
status_async fp itoa conn = query_parse_async fp itoa 0 unit (Query.new query_sysctl_status) conn
