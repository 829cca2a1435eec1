-- ===== src/Tests/Runs.antt =====
-- What a run of the decoder unfolds.
use client_rust.Std.{parse_digits, parse_magnitude, parse_signed}
use client_rust.Std.{is_utf8}
use client_rust.Protocol.Cursor
use client_rust.Protocol.State
use client_rust.Protocol.Lfs
use client_rust.Protocol.Sp
use client_rust.Protocol.Value
use client_rust.Protocol.Stream
use client_rust.Protocol.Multi
use client_rust.Protocol.Validate
use client_rust.Protocol.Pipe

-- A declaration that unfolds this one computes the whole decoder.
unfoldable pub decoder_runs : Unit {0}
unfolding parse_digits parse_magnitude parse_signed is_utf8 Cursor.index Cursor.slice Cursor.next
    Cursor.current Cursor.remaining Cursor.eof Cursor.cursor_value Cursor.last_index
    Cursor.cursor_eq Cursor.has_left Cursor.next_chunk State.try_complete Lfs.initialize
    Lfs.lfs_step Lfs.lfs_loop Lfs.lfs_finish Lfs.complete Lfs.checked_push Lfs.unsigned_update
    Lfs.parse_block Sp.complete_size Sp.finish_binary Sp.finish_string Sp.initialize Sp.take_block
    Sp.complete Value.complete_value Value.decode_bool Value.initialize_stream Value.complete_stream
    Value.try_complete_self Value.next_value_with_code Value.next_value Stream.element
    Stream.stream_round Stream.stream_loop Stream.complete_items Stream.complete
    Stream.try_complete_self Stream.next_value_with_code Multi.initialize Multi.multi_round
    Multi.multi_loop Multi.complete Validate.complete_error Validate.complete_row
    Validate.complete_rows Validate.begin_response Validate.validate Pipe.pipe_packet
    Pipe.pipe_round Pipe.pipe_loop Pipe.validate_pipe
decoder_runs = tt
