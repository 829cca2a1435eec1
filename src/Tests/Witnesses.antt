-- ===== src/Tests/Witnesses.antt =====
-- The theorems at concrete inputs.
use client_rust.Prelude.{
  ◌≡◌, ◌≢◌, none, refl, Bytes, List, true, some, [], ◌∷◌, ◌++◌, map, length, codes, arith, ◌<◌,
}
use client_rust.Error.{ok, err, protocol_error, invalid_packet}
use client_rust.Std.{negsuc}
use client_rust.Itoa.Decimal.{decimal_itoa}
use client_rust.Response.{Value, Response}
use client_rust.Response.Types.{Direct, ValueType, direct, option, r_list, tuple, rows, TupleOf}
use client_rust.Response.Parse.{from_value, from_response}
use client_rust.Response.RoundTrip.{to_row, from_response-to_row, from_value-option}
use client_rust.Query.{
  Query, query_str, new, SqParam, SqParams, nil, cons, FloatText, append_param, write_packet,
  Pipeline, empty, extend,
}
use client_rust.Query as Queries
use client_rust.Query.Packet.{IsValid, params, read_packet, read_packet-write_packet}
use client_rust.Query.Pipelines.{read_queries, parts, read_queries-extend}
use client_rust.Query.Params.{
  encode, places, encode_list, places_list, append_param-encode, query_lem,
}
use client_rust.Protocol.Cursor.{decoder}
use client_rust.Protocol.Extend
use client_rust.Protocol.Validate.{initial, from_le_bytes, validate}
use client_rust.Protocol.Validate.Pieces.{Continues, validate_resume}
use client_rust.Io.{received, TcpConnection, query, query_async, execute_pipeline, pipeline_loop}
use client_rust.Io.Chunks.{answered, verdict, settle, closed, verdict-query}
use client_rust.Io.Async.{query_async-query}
use client_rust.Io.Pipelines.{execute_pipeline-length, execute_pipeline_split}
use client_rust.Tests.Runs.{decoder_runs}
use client_rust.Tests.Decode.{no_floats}

-- A query with a text, a negative number and a list.
abbrev select : Query
select = record {
  buf = codes "select * from t where k = ?" ++ 2 ∷ codes "7\n";
  param_cnt = 1;
  q_window = 27;
}

abbrev count_all : Query
count_all = record { buf = codes "count"; param_cnt = 0; q_window = 5 }

abbrev arguments : List SqParam
arguments =
    SqParam.str (codes "sayan")
    ∷ SqParam.sint (negsuc 4)
    ∷ SqParam.fields (cons (SqParam.bool true) (cons SqParam.null nil))
    ∷ []

abbrev no_text : FloatText
no_text = λ _. []

-- A row of a text and a null value, cut in the text.
abbrev row_start : Bytes
row_start = 0x11 ∷ codes "2\n" ++ 0x0D ∷ codes "5\nsa"

abbrev row_end : Bytes
row_end = codes "yan" ++ 0 ∷ []

-- A connection on which writing succeeds and the row is read in two pieces.
abbrev connection : TcpConnection
connection = record {
  con = record {
    written = [];
    write_errors = [];
    events = received row_start ∷ received row_end ∷ received [] ∷ [];
  };
  buf = [];
}

abbrev pipeline : Pipeline
pipeline = record { cnt = 1; buf = codes "5\n0\ncount" }

-- An empty response is read.
abbrev answered_connection : TcpConnection
answered_connection = record {
  con = record { written = []; write_errors = []; events = received (0x12 ∷ []) ∷ [] };
  buf = [];
}

-- A column of numbers and one of lists of texts, and two rows of them.
abbrev columns : List ValueType
columns = direct Direct.uint64 ∷ r_list (direct Direct.string) ∷ []

abbrev table : List (TupleOf columns)
table = (7, (codes "a" ∷ codes "b" ∷ [], tt)) ∷ (8, ([], tt)) ∷ []

number_ne_null : Value.uint8 5 ≢ Value.null
number_ne_null = λ e. cc

validate_resume_example :
    Continues no_floats row_end
      (decoder row_start 0)
      (validate no_floats initial (Extend.extend (decoder row_start 0) row_end))
      (validate no_floats initial (decoder row_start 0))
validate_resume_example =
    validate_resume no_floats initial (decoder row_start 0) row_end (omega arith) (omega arith)
      (omega arith)

verdict-query_example :
    verdict (query no_floats decimal_itoa select connection)
    ≡ settle closed (validate no_floats initial (decoder (row_start ++ row_end) 0))
verdict-query_example =
    verdict-query no_floats decimal_itoa select connection row_start (row_end ∷ []) closed refl refl
      (omega arith, (omega arith, tt))

read_packet-write_packet_example :
    read_packet (write_packet decimal_itoa select ++ codes "next")
    ≡ some (query_str select, params select, codes "next")
read_packet-write_packet_example =
    read_packet-write_packet decimal_itoa select (codes "next") (omega arith)

read_queries-extend_example :
    (read_queries 2 ((extend decimal_itoa (select ∷ count_all ∷ []) empty).buf ++ codes "next")
      ≡ some (map parts (select ∷ count_all ∷ []), codes "next"))
    × ((extend decimal_itoa (select ∷ count_all ∷ []) empty).cnt ≡ 2)
read_queries-extend_example =
    read_queries-extend decimal_itoa (select ∷ count_all ∷ []) (codes "next")
      (omega arith, (omega arith, tt))

execute_pipeline_split_example :
    (verdict (
        execute_pipeline no_floats decimal_itoa pipeline (record connection {
          con = record (connection.con) { events = received (0x10 ∷ 0xFF ∷ 0 ∷ []) ∷ [] };
        }))
      ≡ answered (ok (Response.error (from_le_bytes 0xFF 0) ∷ [])))
    × (verdict (
          execute_pipeline no_floats decimal_itoa pipeline (record connection {
            con = record (connection.con) {
              events = received (0x10 ∷ []) ∷ received (0xFF ∷ 0 ∷ []) ∷ [];
            };
          }))
        ≡ answered (err (protocol_error invalid_packet)))
execute_pipeline_split_example =
    execute_pipeline_split no_floats decimal_itoa pipeline connection 0 [] refl refl

answered_run :
    verdict (execute_pipeline no_floats decimal_itoa pipeline answered_connection)
    ≡ answered (ok (Response.empty ∷ []))
unfolding execute_pipeline pipeline_loop decoder_runs
answered_run = refl

execute_pipeline-length_example :
    (length (Response.empty ∷ []) ≡ pipeline.cnt) × (0 < length (Response.empty ∷ []))
execute_pipeline-length_example =
    execute_pipeline-length no_floats decimal_itoa pipeline answered_connection
      (Response.empty ∷ []) answered_run

query_async-query_example :
    query_async no_floats decimal_itoa select connection
    ≡ query no_floats decimal_itoa select connection
query_async-query_example = query_async-query no_floats decimal_itoa select connection

query_lem_example :
    let q = Queries.query decimal_itoa no_text (codes "insert into t(?, ?, ?, ?)") arguments in
    (query_str q ≡ codes "insert into t(?, ?, ?, ?)")
    × (params q ≡ encode_list decimal_itoa no_text arguments)
    × (q.param_cnt ≡ places_list decimal_itoa no_text arguments)
    × IsValid q
query_lem_example = query_lem decimal_itoa no_text (codes "insert into t(?, ?, ?, ?)") arguments

append_param-encode_example :
    append_param decimal_itoa no_text (SqParam.q_list (cons (SqParam.uint 20) nil)) (codes "insert")
    ≡ (
      codes "insert" ++ encode decimal_itoa no_text (SqParam.q_list (cons (SqParam.uint 20) nil)),
      places decimal_itoa no_text (SqParam.q_list (cons (SqParam.uint 20) nil)),
    )
append_param-encode_example =
    append_param-encode decimal_itoa no_text (SqParam.q_list (cons (SqParam.uint 20) nil))
      (codes "insert")

from_response-to_row_example :
    from_response 2 (rows (tuple columns)) (Response.rows (map (to_row columns) table))
    ≡ some (ok table)
from_response-to_row_example =
    from_response-to_row 2 columns table ((tt, omega arith), ((tt, omega arith), tt))

from_value-option_example : from_value 3 (option (direct Direct.uint8)) (Value.uint8 5) ≡ none
from_value-option_example = from_value-option 3 (direct Direct.uint8) (Value.uint8 5) number_ne_null
