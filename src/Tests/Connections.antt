-- ===== src/Tests/Connections.antt =====
-- The theorems about connections, conversions and error texts at concrete inputs.
use client_rust.Prelude.{
  ◌≡◌, refl, some, Bytes, List, [], ◌∷◌, ◌++◌, map, codes, arith, inl, inr, ◌↔◌,
}
use native.Mathlib.Decide.{ℕ_discrete}
use client_rust.Error.{
  ok, err, server_error, parse_error, response_mismatch, connection_setup_err, ConnectionSetupError,
}
use client_rust.Std.{parse_digits, is_utf8}
use client_rust.Error.Text.{StdText, error_text}
use client_rust.Error.Text.Distinct.{error_text-injective}
use client_rust.Itoa.Decimal.{decimal_itoa}
use client_rust.Response.{Response, count, nil}
use client_rust.Response.Types.{Direct, ValueType, direct, TupleOf, rows, tuple}
use client_rust.Response.RoundTrip.{to_row, direct_value, to_value}
use client_rust.Response.Parse.{from_response}
use client_rust.Response.First.{into_first, into_first_as, into_first_as-to_row}
use client_rust.Response.Derive as Derive
use client_rust.Response.Derive.{Field}
use client_rust.Query.{Query, Pipeline}
use client_rust.Handshake.{Config}
use client_rust.Handshake as Handshakes
use client_rust.Protocol.Wire.{WireValue, WireValues, WireRows, WireResponse}
use client_rust.Io.{Stream, received, ReadEvent, TcpConnection, execute_pipeline}
use client_rust.Io.Setup.{query_parse, read_exact}
use client_rust.Io.Chunks.{answered, verdict, closed, silent}
use client_rust.Io.Answer.{setup_answer, read_exact_lem}
use client_rust.Io.Parsed.{converted, query_parse-WireResponse, query_parse-to_row}
use client_rust.Io.Aio.{execute_pipeline_async, execute_pipeline_async-execute_pipeline}
use client_rust.Io.Connect.{
  TcpConnect, Tls, connect, connect_tls, connect_tls_async, opened, opened-connect,
}
use client_rust.Io.Sessions.{session, bad_certificate, opened-connect_tls, opened-connect_tls_async}
use client_rust.Pool.Tcp as Tcp
use client_rust.Pool.Tls as TlsPool
use client_rust.Pool.Health.{is_valid-WireResponse}
use client_rust.Tests.Decode.{no_floats}

-- Two rows of a number and a text.
abbrev columns : List ValueType
columns = direct Direct.uint8 ∷ direct Direct.string ∷ []

abbrev table : List (TupleOf columns)
table = (7, (codes "a", tt)) ∷ (8, (codes "bc", tt)) ∷ []

abbrev first_row : Bytes
first_row = 0x02 ∷ codes "7\n" ++ 0x0D ∷ codes "1\na"

abbrev second_row : Bytes
second_row = 0x02 ∷ codes "8\n" ++ 0x0D ∷ codes "2\nbc"

abbrev table_bytes : Bytes
table_bytes = 0x13 ∷ codes "2\n2\n" ++ first_row ++ second_row

table_sent : WireResponse no_floats (Response.rows (map (to_row columns) table)) table_bytes
unfolding parse_digits is_utf8 to_value direct_value
table_sent =
    WireResponse.rows 2 (codes "2") (codes "2") (refl, omega arith) (refl, omega arith)
      (WireRows.cons refl
        (WireValues.cons (WireValue.uint8 7 (codes "7") (refl, omega arith)) (
          WireValues.cons (WireValue.string (codes "a") (codes "1") (refl, omega arith) refl)
            WireValues.nil))
        (WireRows.cons refl
          (WireValues.cons (WireValue.uint8 8 (codes "8") (refl, omega arith)) (
            WireValues.cons (WireValue.string (codes "bc") (codes "2") (refl, omega arith) refl)
              WireValues.nil))
          WireRows.nil))

abbrev select : Query
select = record { buf = codes "select * from t"; param_cnt = 0; q_window = 15 }

abbrev stream : List ReadEvent → Stream
stream events = record { written = []; write_errors = []; events = events }

abbrev reading : List ReadEvent → TcpConnection
reading events = record { con = stream events; buf = [] }

query_parse-to_row_example :
    verdict (
      query_parse no_floats decimal_itoa 1
        (rows (tuple columns))
        select
        (reading (received table_bytes ∷ [])))
    ≡ answered (ok table)
query_parse-to_row_example =
    query_parse-to_row no_floats decimal_itoa select (reading (received table_bytes ∷ []))
      table_bytes [] silent 1 columns table [] ((tt, omega arith), ((tt, omega arith), tt)) refl
      refl (omega arith, tt) table_sent refl

query_parse-WireResponse_example :
    verdict (
      query_parse no_floats decimal_itoa 1
        (rows (tuple columns))
        select
        (reading (received table_bytes ∷ [])))
    ≡ converted
        (from_response 1 (rows (tuple columns)) (Response.rows (map (to_row columns) table)))
query_parse-WireResponse_example =
    query_parse-WireResponse no_floats decimal_itoa select (reading (received table_bytes ∷ []))
      table_bytes [] silent 1 (rows (tuple columns)) [] refl refl (omega arith, tt) table_sent refl

abbrev config : Config
config = Handshakes.new (codes "127.0.0.1") 2003 (codes "root") (codes "password")

-- The status query is answered by the error 100, in two pieces.
abbrev unwell : TcpConnection
unwell = reading (received (0x10 ∷ []) ∷ received (100 ∷ 0 ∷ []) ∷ [])

is_valid-WireResponse_example :
    (verdict (Tcp.is_valid no_floats decimal_itoa (Tcp.new config) unwell)
      ≡ answered (err (server_error 100)))
    × (verdict (Tcp.is_valid_async no_floats decimal_itoa (Tcp.new config) unwell)
        ≡ answered (err (server_error 100)))
    × (verdict (TlsPool.is_valid no_floats decimal_itoa (TlsPool.new config []) unwell)
        ≡ answered (err (server_error 100)))
    × (verdict (TlsPool.is_valid_async no_floats decimal_itoa (TlsPool.new config []) unwell)
        ≡ answered (err (server_error 100)))
is_valid-WireResponse_example =
    is_valid-WireResponse no_floats decimal_itoa (Tcp.new config) (TlsPool.new config []) unwell
      (0x10 ∷ []) ((100 ∷ 0 ∷ []) ∷ []) silent (Response.error 100) (0x10 ∷ 100 ∷ 0 ∷ []) [] refl
      refl (omega arith, (omega arith, tt)) (WireResponse.error 100 0) refl

-- The server accepts, in two pieces.
abbrev accepting : Stream
accepting = stream (received (b'H' ∷ 0 ∷ []) ∷ received (0 ∷ 0 ∷ []) ∷ received [] ∷ [])

abbrev to_server : TcpConnect
to_server = λ host port. inr accepting

-- A TLS library that leaves the stream as it is.
abbrev plain_tls : Tls Bytes Bytes
plain_tls = record {
  from_pem = λ pem. inr pem;
  build = λ certificate. inr certificate;
  connect = λ connector host con. inr con;
  connect_async = λ connector host con. inr con;
}

opened-connect_example :
    opened (connect to_server decimal_itoa config) ≡ setup_answer closed (b'H' ∷ 0 ∷ 0 ∷ 0 ∷ [])
opened-connect_example =
    opened-connect to_server decimal_itoa config accepting ((b'H' ∷ 0 ∷ []) ∷ (0 ∷ 0 ∷ []) ∷ [])
      closed refl (refl, refl, (omega arith, (omega arith, tt)))

opened-connect_tls_example :
    opened (connect_tls to_server decimal_itoa config plain_tls (codes "pem")) ≡ answered (ok tt)
unfolding Handshakes.accept Handshakes.parse
opened-connect_tls_example =
    opened-connect_tls to_server config plain_tls (codes "pem") decimal_itoa
      (session ((b'H' ∷ 0 ∷ []) ∷ (0 ∷ 0 ∷ []) ∷ []) closed)
      (
        accepting,
        (accepting, codes "pem", codes "pem", refl, refl, refl, refl),
        (refl, refl, (omega arith, (omega arith, tt))),
      )

-- A TLS library that refuses every certificate.
abbrev strict_tls : Tls Bytes Bytes
strict_tls = record plain_tls { from_pem = λ pem. inl (codes "no PEM") }

opened-connect_tls_async_example :
    opened (connect_tls_async to_server decimal_itoa config strict_tls (codes "pem") read_exact)
    ≡ answered (
        err (
          connection_setup_err
            (ConnectionSetupError.other (codes "failed to parse certificate: no PEM"))))
opened-connect_tls_async_example =
    opened-connect_tls_async to_server config strict_tls (codes "pem") decimal_itoa read_exact
      (bad_certificate (codes "no PEM")) (λ cs end v u. read_exact_lem cs end 4 [] v) tt
      (accepting, refl, refl)

abbrev pipeline : Pipeline
pipeline = record { cnt = 1; buf = codes "5\n0\ncount" }

execute_pipeline_async-execute_pipeline_example :
    execute_pipeline_async no_floats decimal_itoa pipeline unwell
    ≡ execute_pipeline no_floats decimal_itoa pipeline unwell
execute_pipeline_async-execute_pipeline_example =
    execute_pipeline_async-execute_pipeline no_floats decimal_itoa pipeline unwell

-- A structure of the fields 1, a number, and 2, a text.
abbrev user : List (Field ℕ_discrete)
user = (1, (direct Direct.uint8, 7)) ∷ (2, (direct Direct.string, codes "a")) ∷ []

into_first_as-to_row_example :
    (into_first_as 1 (direct Direct.uint8) (to_row columns (7, (codes "a", tt))) ≡ some (ok 7))
    × (into_first (to_row columns (7, (codes "a", tt))) ≡ ok (to_value (direct Direct.uint8) 7))
    × ((into_first (to_row [] tt) ≡ err (parse_error response_mismatch)) ↔ (count nil ≡ 0))
into_first_as-to_row_example =
    into_first_as-to_row 1 (direct Direct.uint8) (direct Direct.string ∷ []) (7, (codes "a", tt))
      (to_row [] tt) tt (omega arith)

-- Every I/O error has one text, and a number that of one character.
abbrev texts : StdText
texts = record { io_text = λ e. codes "broken"; number_text = λ n. n ∷ [] }

unwell_text : error_text texts (server_error 100) ≡ error_text texts (server_error b'd')
unwell_text = refl

error_text-injective_example : server_error 100 ≡ server_error b'd'
error_text-injective_example =
    error_text-injective texts (λ m n h. cc) (server_error 100) (server_error b'd') tt tt
      unwell_text
