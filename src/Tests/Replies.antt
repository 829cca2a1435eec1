-- ===== src/Tests/Replies.antt =====
-- The theorems about the bytes of responses at concrete inputs.
use client_rust.Io.Exact.{Holds, query-Holds, query-TypedResponse}
use client_rust.Protocol.Wire.Types.{TypedResponse}
use client_rust.Protocol.Wire.Sound.{Sent}
use client_rust.Protocol.Wire.Sound.Responses.{validate-Sent}
use client_rust.Prelude.{All, ◌<◌, ◌≡◌, refl, Bytes, List, [], ◌∷◌, ◌++◌, length, codes, arith}
use client_rust.Error.{ok}
use client_rust.Std.{parse_digits, is_utf8}
use client_rust.Itoa.Decimal.{decimal_itoa}
use client_rust.Response.{Value, Values, nil, cons, Response}
use client_rust.Query.{Query, Pipeline}
use client_rust.Protocol.Outcome.{done}
use client_rust.Protocol.Cursor.{decoder}
use client_rust.Protocol.State.{completed}
use client_rust.Protocol.Extend
use client_rust.Protocol.Validate.{initial, validate, from_le_bytes}
use client_rust.Protocol.Pipe.{default, validate_pipe}
use client_rust.Protocol.Pipe.Rounds.{Plain}
use client_rust.Protocol.Pipe.Resume.{PipeContinues, validate_pipe_resume}
use client_rust.Protocol.Wire.{WireValue, WireValues, WireResponse, WireResponses}
use client_rust.Protocol.Wire.At.{past}
use client_rust.Protocol.Wire.Responses.{validate-WireResponse}
use client_rust.Protocol.Wire.Pipes.{validate_pipe-WireResponses}
use client_rust.Io.{
  received, ReadEvent, TcpConnection, query, query_loop, execute_pipeline, pipeline_loop,
}
use client_rust.Io.Chunks.{answered, verdict, closed, silent, incomplete}
use client_rust.Io.PipeChunks.{settle_pipe, verdict-execute_pipeline}
use client_rust.Io.Replies.{query-WireResponse, query-prefix}
use client_rust.Io.PipeExact.{HoldsAll, execute_pipeline-HoldsAll}
use client_rust.Io.PipeReplies.{execute_pipeline-WireResponses, execute_pipeline-at_once}
use client_rust.Tests.Runs.{decoder_runs}
use client_rust.Tests.Decode.{no_floats}

-- A row of a text and a null value, cut in the text.
abbrev row_start : Bytes
row_start = 0x11 ∷ codes "2\n" ++ 0x0D ∷ codes "5\nsa"

abbrev row_end : Bytes
row_end = codes "yan" ++ 0 ∷ []

abbrev sayan : Values
sayan = cons (Value.string (codes "sayan")) (cons Value.null nil)

abbrev sayan_row : Response
sayan_row = Response.row (record { values = sayan })

text_sayan : WireValue no_floats (Value.string (codes "sayan")) (0x0D ∷ codes "5\nsayan")
unfolding parse_digits is_utf8
text_sayan = WireValue.string (codes "sayan") (codes "5") (refl, omega arith) refl

row_sayan : WireResponse no_floats sayan_row (row_start ++ row_end)
unfolding parse_digits
row_sayan =
    WireResponse.row (codes "2") (refl, omega arith)
      (WireValues.cons text_sayan (WireValues.cons WireValue.null WireValues.nil))

abbrev select : Query
select = record { buf = codes "select * from t"; param_cnt = 0; q_window = 15 }

abbrev reading : List ReadEvent → TcpConnection
reading events = record {
  con = record { written = []; write_errors = []; events = events };
  buf = [];
}

-- A pipeline of two queries, and an error and the row as its responses.
abbrev pipeline : Pipeline
pipeline = record { cnt = 2; buf = codes "5\n0\ncount5\n0\ncount" }

abbrev responses : List Response
responses = Response.error (from_le_bytes 0x05 0) ∷ sayan_row ∷ []

abbrev error_bytes : Bytes
error_bytes = 0x10 ∷ 0x05 ∷ 0 ∷ []

two_responses : WireResponses no_floats responses (error_bytes ++ row_start ++ row_end)
two_responses =
    WireResponses.cons (WireResponse.error 0x05 0) (WireResponses.cons row_sayan WireResponses.nil)

plain_start : Plain (error_bytes ++ row_start)
plain_start =
    (refl, (refl, (refl, (refl, (refl, (refl, (refl, (refl, (refl, (refl, (refl, tt)))))))))))

plain_end : Plain row_end
plain_end = (refl, (refl, (refl, (refl, tt))))

validate-WireResponse_example :
    validate no_floats initial (decoder (0x12 ∷ row_start ++ row_end ++ codes "more") 1)
    ≡ done
        (completed sayan_row)
        (past (decoder (0x12 ∷ row_start ++ row_end ++ codes "more") 1) (row_start ++ row_end))
validate-WireResponse_example =
    validate-WireResponse no_floats row_sayan
      (decoder (0x12 ∷ row_start ++ row_end ++ codes "more") 1) (codes "more")
      ((omega arith, omega arith), refl)

query-WireResponse_example :
    verdict (
      query no_floats decimal_itoa select
        (reading (received row_start ∷ received row_end ∷ received [] ∷ [])))
    ≡ answered (ok sayan_row)
query-WireResponse_example =
    query-WireResponse no_floats decimal_itoa select
      (reading (received row_start ∷ received row_end ∷ received [] ∷ [])) row_start (row_end ∷ [])
      closed [] refl refl (omega arith, (omega arith, tt)) row_sayan refl

query-prefix_example :
    verdict (query no_floats decimal_itoa select (reading (received row_start ∷ [])))
    ≡ incomplete silent
query-prefix_example =
    query-prefix no_floats decimal_itoa select (reading (received row_start ∷ [])) row_start []
      silent sayan_row row_end refl refl (omega arith, tt) row_sayan (omega arith)

validate_pipe-WireResponses_example :
    validate_pipe no_floats
      (length responses)
      default
      (decoder (error_bytes ++ row_start ++ row_end) 0)
    ≡ done (completed responses) (
        past
          (decoder (error_bytes ++ row_start ++ row_end) 0)
          (error_bytes ++ row_start ++ row_end))
validate_pipe-WireResponses_example =
    validate_pipe-WireResponses no_floats [] (decoder (error_bytes ++ row_start ++ row_end) 0)
      two_responses ((omega arith, omega arith), refl) (omega arith)

validate_pipe_resume_example :
    PipeContinues no_floats 2 row_end
      (decoder (error_bytes ++ row_start) 0)
      (validate_pipe no_floats 2 default
        (Extend.extend (decoder (error_bytes ++ row_start) 0) row_end))
      (validate_pipe no_floats 2 default (decoder (error_bytes ++ row_start) 0))
validate_pipe_resume_example =
    validate_pipe_resume no_floats 2 default (decoder (error_bytes ++ row_start) 0) row_end
      (omega arith, omega arith) tt (omega arith) plain_start plain_end

verdict-execute_pipeline_example :
    verdict (
      execute_pipeline no_floats decimal_itoa pipeline
        (reading (received (error_bytes ++ row_start) ∷ received row_end ∷ received [] ∷ [])))
    ≡ settle_pipe closed
        (validate_pipe no_floats 2 default (decoder ((error_bytes ++ row_start) ++ row_end) 0))
verdict-execute_pipeline_example =
    verdict-execute_pipeline no_floats decimal_itoa pipeline
      (reading (received (error_bytes ++ row_start) ∷ received row_end ∷ received [] ∷ []))
      (error_bytes ++ row_start) (row_end ∷ []) closed refl refl
      ((omega arith, plain_start), ((omega arith, plain_end), tt))

execute_pipeline-WireResponses_example :
    verdict (
      execute_pipeline no_floats decimal_itoa pipeline
        (reading (received (error_bytes ++ row_start) ∷ received row_end ∷ received [] ∷ [])))
    ≡ answered (ok responses)
execute_pipeline-WireResponses_example =
    execute_pipeline-WireResponses no_floats decimal_itoa pipeline
      (reading (received (error_bytes ++ row_start) ∷ received row_end ∷ received [] ∷ [])) []
      (error_bytes ++ row_start) (row_end ∷ []) closed refl refl
      ((omega arith, plain_start), ((omega arith, plain_end), tt)) two_responses refl (omega arith)
      refl

execute_pipeline-at_once_example :
    verdict (
      execute_pipeline no_floats decimal_itoa pipeline
        (reading (received (error_bytes ++ row_start ++ row_end) ∷ [])))
    ≡ answered (ok responses)
execute_pipeline-at_once_example =
    execute_pipeline-at_once no_floats decimal_itoa pipeline
      (reading (received (error_bytes ++ row_start ++ row_end) ∷ [])) []
      (error_bytes ++ row_start ++ row_end) [] refl refl (omega arith) two_responses refl
      (omega arith) refl

octets : All (λ x. x < 256) (row_start ++ row_end)
octets = omega arith

-- The answer is the same by computation.
sayan_run :
    verdict (
      query no_floats decimal_itoa select
        (reading (received row_start ∷ received row_end ∷ received [] ∷ [])))
    ≡ answered (ok sayan_row)
unfolding query query_loop decoder_runs
sayan_run = refl

query-Holds_example : Holds no_floats sayan_row (row_start ++ row_end)
query-Holds_example =
    query-Holds no_floats decimal_itoa select
      (reading (received row_start ∷ received row_end ∷ received [] ∷ [])) row_start (row_end ∷ [])
      closed sayan_row refl refl (omega arith, (omega arith, tt)) sayan_run

query-TypedResponse_example : TypedResponse sayan_row
query-TypedResponse_example =
    query-TypedResponse no_floats decimal_itoa select
      (reading (received row_start ∷ received row_end ∷ received [] ∷ [])) row_start (row_end ∷ [])
      closed sayan_row refl refl (omega arith, (omega arith, tt)) octets sayan_run

validate-Sent_example :
    Sent
      (WireResponse no_floats)
      (decoder (row_start ++ row_end) 0)
      (validate no_floats initial (decoder (row_start ++ row_end) 0))
validate-Sent_example = validate-Sent no_floats (decoder (row_start ++ row_end) 0) (omega arith)

pipeline_run :
    verdict (
      execute_pipeline no_floats decimal_itoa pipeline
        (reading (received (error_bytes ++ row_start) ∷ received row_end ∷ received [] ∷ [])))
    ≡ answered (ok responses)
unfolding execute_pipeline pipeline_loop decoder_runs
pipeline_run = refl

execute_pipeline-HoldsAll_example :
    HoldsAll no_floats pipeline responses ((error_bytes ++ row_start) ++ row_end)
execute_pipeline-HoldsAll_example =
    execute_pipeline-HoldsAll no_floats decimal_itoa pipeline
      (reading (received (error_bytes ++ row_start) ∷ received row_end ∷ received [] ∷ []))
      (error_bytes ++ row_start) (row_end ∷ []) closed responses refl refl
      ((omega arith, plain_start), ((omega arith, plain_end), tt)) pipeline_run
