-- ===== src/Streams.antt =====
-- modal/io_streams.py: reading a stream line by line, and writing to the standard input of a sandbox
-- or a container process. Bytes are numbers.
pub mod Lines
pub mod LinesLaws
pub mod Writer
pub mod WriterLaws
mod Examples
