-- ===== src/Pool/Health.antt =====
-- The connections that the managers of src/pool.rs hand out and test.
use client_rust.Prelude.{ℕ, ◌≡◌, refl, ap, ◌∙◌, All, Bytes, List, [], ◌∷◌, ◌++◌, map}
use client_rust.Std.{FloatParse}
use client_rust.Error.{ClientResult, ok, err, server_error, parse_error, response_mismatch}
use client_rust.Itoa.{Itoa}
use client_rust.Query
use client_rust.Response.{Response, empty, error}
use client_rust.Response.Types.{unit}
use client_rust.Response.Parse.{from_response}
use client_rust.Protocol.Wire.{WireResponse}
use client_rust.Io.{received, TcpConnection}
use client_rust.Io.Chunks.{answered, verdict, End, end_events, concat, NonEmpty}
use client_rust.Io.Parsed.{converted, query_parse-WireResponse}
use client_rust.Pool.{query_sysctl_status}
use client_rust.Pool.Tcp as Tcp
use client_rust.Pool.Tcp.{ConnectionMgrTcp}
use client_rust.Pool.Tls as Tls
use client_rust.Pool.Tls.{ConnectionMgrTls}
use client_rust.Io.Setup.{query_parse}
use client_rust.Io.Aio.{query_parse_async, query_parse_async_lem}

-- What a response to the status query says of the connection.
abbrev pub health : Response → ClientResult (Unit {0})
health empty = ok tt
health (error e) = err (server_error e)
health (Response.value v) = err (parse_error response_mismatch)
health (Response.row r) = err (parse_error response_mismatch)
health (Response.rows rs) = err (parse_error response_mismatch)

from_response-health :
    (f : ℕ) (r : Response) → converted (from_response f unit r) ≡ answered (health r)
unfolding from_response
from_response-health f empty = refl
from_response-health f (error e) = refl
from_response-health f (Response.value v) = refl
from_response-health f (Response.row r) = refl
from_response-health f (Response.rows rs) = refl

-- A connection is found valid exactly by an empty response to the status query, in whatever pieces it is
-- read, by all four managers; an error of the server is passed on with its code, and any other response is a
-- mismatch. It is asked that the query can be written and that each piece holds a byte.
pub is_valid-WireResponse :
    (fp : FloatParse) (itoa : Itoa) (mgr : ConnectionMgrTcp) (mgr_tls : ConnectionMgrTls)
    (conn : TcpConnection) (c : Bytes) (cs : List Bytes) (end : End) (r : Response) (s rest : Bytes)
    → conn.con.write_errors ≡ []
    → conn.con.events ≡ map received (c ∷ cs) ++ end_events end
    → All NonEmpty (c ∷ cs)
    → WireResponse fp r s
    → concat (c ∷ cs) ≡ s ++ rest
    → (verdict (Tcp.is_valid fp itoa mgr conn) ≡ answered (health r))
      × (verdict (Tcp.is_valid_async fp itoa mgr conn) ≡ answered (health r))
      × (verdict (Tls.is_valid fp itoa mgr_tls conn) ≡ answered (health r))
      × (verdict (Tls.is_valid_async fp itoa mgr_tls conn) ≡ answered (health r))
unfolding Tcp.is_valid Tcp.is_valid_async Tls.is_valid Tls.is_valid_async
is_valid-WireResponse fp itoa mgr mgr_tls conn c cs end r s rest writes events v wire all =
    let q : Query.Query = Query.new query_sysctl_status in
    let sync : verdict (query_parse fp itoa 0 unit q conn) ≡ answered (health r) =
      query_parse-WireResponse fp itoa q conn c cs end 0 unit rest writes events v wire all
      ∙ from_response-health 0 r in
    let async : verdict (query_parse_async fp itoa 0 unit q conn) ≡ answered (health r) =
      ap verdict (query_parse_async_lem fp itoa 0 unit q conn) ∙ sync in
    (sync, async, sync, async)
