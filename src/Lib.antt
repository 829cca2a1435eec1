-- ===== src/Lib.antt =====
-- The client of Skytable (the crate skytable, in src/): queries are encoded and written to a
-- connection, and the responses of the server are decoded from the bytes that are read.
--
-- The parts and their files:
-- * Protocol.antt and the modules below it are src/protocol/mod.rs and src/protocol/pipe.rs. A
--   Decoder is the buffer and the position; a method takes it and gives an Outcome: a value or an
--   error with the new decoder, a panic (an index out of range), or no result where a loop's fuel
--   ran out. Cursor has the reads at the position, State the two states of an object that is being
--   decoded, Lfs the numbers that end with a line feed, Sp the blocks with a size before them,
--   Value and Stream the values and the lists of values, which recur on each other, Multi the rows,
--   Validate the dispatch of Decoder::validate_response, and Pipe the loop of
--   Decoder::validate_pipe. Wire has the format of the responses as a relation between a response
--   and its bytes, for any server: At, Lines, Blocks, Codes, Items, Responses and Pipes read such
--   bytes, Sound goes the other way, and Types is about ranges. Extend says what it means that a
--   buffer grows and decoding goes on; the modules named Resume, Total and Pieces have the lemmas
--   about it, method by method.
-- * Query.antt is src/query.rs, with the macros of src/macros.rs and the loop that the derive macro
--   Query generates (sky-derive/src/lib.rs): the text of a query, its parameters, the packet, and
--   pipelines. Query/Wire, Packet, Pipelines and Read hold independent readers of what is written.
-- * Handshake.antt is src/config.rs and src/protocol/handshake.rs.
-- * Io.antt is src/io/sync.rs and src/io/aio.rs: a connection is a stream, whose future is the list
--   of what its reads and writes give, and a buffer. The loops take one event a round. Io/Setup is
--   the handshake and query_parse of the blocking client, with read_exact of the standard library
--   written out. Io/Aio and Io/Connect have the rest of the asynchronous client and the
--   establishing of connections over TCP and TLS, and Io/Sessions says how connecting over TLS ends
--   at each stage; those libraries are functions that may give any stream or error, and one theorem
--   asks that read_exact of tokio gives four of the bytes that come. Io/Replies, Exact,
--   PipeReplies, PipeExact and Parsed join the clients with the wire format.
-- * Pool.antt is src/pool.rs: the managers of connections, for the pools of r2d2 and bb8.
-- * Error.antt is src/error.rs, with the texts in Error/Text and what tells them apart in
--   Error/Text/Distinct, and Response.antt is src/response.rs: Types has the types that a response
--   can be parsed into, as data, Parse the implementations for them, First the first value of a
--   row, and Derive what the derive macro Response generates, with its variables by name
--   (sky-derive/src/lib.rs).
-- * Itoa.antt and Std.antt stand for the crate itoa and the standard library. itoa is a record of
--   functions with its documented laws; the float parser and printer are functions with no law, but
--   one theorem asks that a printed float has no line feed. Integer parsing and UTF-8 validation of
--   the standard library are written out.
--
-- Numbers are natural numbers; usize has 64 bits, and a width is written out where the source
-- checks for overflow. Bytes are numbers, and a float is its bit pattern. Fuel: a number's loop is
-- given a round for each byte that is left and one more; a list's loop a round for each byte that
-- is left, for each level of a pending value, and one more; the loop over rows a round for each row
-- that is missing and one more; the pipeline's loop a round for each byte that is left and two
-- more. Parsing a value is given a number of nested calls. Lengths are not bounded by memory.
--
-- Not modelled: the pools themselves, TLS and TCP (the crates' and the system's), the capacity of
-- the buffer, and the bound of one read by the buffer size (the pieces are any lists of bytes).
pub mod Prelude
pub mod Std
pub mod Error
pub mod Itoa
pub mod Query
pub mod Handshake
pub mod Io
pub mod Pool
pub mod Response
pub mod Protocol
pub mod Tests
