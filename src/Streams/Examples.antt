-- ===== src/Streams/Examples.antt =====
-- Tests and concrete runs of the stream reader and writer (modal/io_streams.py).
use modal_client.Prelude.{◌≡◌, refl, true, none, some, List, [], ◌∷◌, ◌++◌, map, concat}
use modal_client.Streams.Lines.{Bytes, get_logs_by_line}
use modal_client.Streams.LinesLaws.{lines_of, ended, get_logs_by_line-lines_of}
use modal_client.Streams.Writer.{StreamWriter, failed_precondition, max_buffer_size, new_writer}
use modal_client.Streams.WriterLaws.{
  Call, writes, closes, drains, run, inputs, NumberedFrom, Ends, stream_conserved, buffer_bounded,
}

-- "a", "b\nc", "\n" and "d", then the end
abbrev chunks : List Bytes
chunks = (97 ∷ []) ∷ (98 ∷ 10 ∷ 99 ∷ []) ∷ (10 ∷ []) ∷ (100 ∷ []) ∷ []

chunks-lines :
    (get_logs_by_line (map some chunks ++ none ∷ []) []).0
    ≡ some (97 ∷ 98 ∷ 10 ∷ []) ∷ some (99 ∷ 10 ∷ []) ∷ some (100 ∷ []) ∷ none ∷ []
unfolding get_logs_by_line modal_client.Streams.Lines.on_message
    modal_client.Streams.Lines.take_lines modal_client.Streams.Lines.split_once
chunks-lines = refl

get_logs_by_line-lines_of_example :
    get_logs_by_line (map some chunks ++ none ∷ []) [] ≡ ended (lines_of (concat chunks))
get_logs_by_line-lines_of_example = get_logs_by_line-lines_of chunks

abbrev calls : List Call
calls =
    writes (104 ∷ 105 ∷ [])
    ∷ drains none
    ∷ writes (33 ∷ [])
    ∷ closes
    ∷ writes (63 ∷ [])
    ∷ drains (some failed_precondition)
    ∷ drains none
    ∷ []

calls-inputs : inputs (run calls new_writer).requests ≡ 104 ∷ 105 ∷ 33 ∷ []
unfolding run modal_client.Streams.WriterLaws.call modal_client.Streams.Writer.write
    modal_client.Streams.Writer.drain modal_client.Streams.Writer.write_eof
calls-inputs = refl

abbrev closed_writer : StreamWriter
closed_writer = record { index = 3; is_closed = true; buffer = 33 ∷ [] }

stream_conserved_example :
    [] ++ (run calls new_writer).accepted
    ≡ inputs (run calls new_writer).requests ++ (run calls new_writer).final.buffer
stream_conserved_example = stream_conserved calls new_writer
