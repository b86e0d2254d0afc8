-- ===== src/Streams/Writer.antt =====
-- `_StreamWriter` of modal/io_streams.py: the buffer of a process's standard input. The remote call of
-- `drain` is a parameter: what the server answers to a request.
use modal_client.Prelude.{
  ℕ, ◌+◌, Bool, true, false, ltb, length, Option, none, some, [], ◌++◌, Result, ok, err, ◌*◌,
  if◌then◌else◌,
}
use modal_client.Streams.Lines.{Bytes}

abbrev pub max_buffer_size : ℕ
max_buffer_size = 2 * 1024 * 1024

pub record StreamWriter : Type 0 where
  pub index : ℕ
  pub is_closed : Bool
  pub buffer : Bytes

abbrev pub new_writer : StreamWriter
new_writer = record { index = 1; is_closed = false; buffer = [] }

pub data WriteError : Type 0 where
  value_error buffer_error : WriteError

unfoldable pub write : Bytes → StreamWriter → Result WriteError StreamWriter
write bytes self =
    if self.is_closed
    then err value_error
    else if ltb max_buffer_size (length self.buffer + length bytes)
    then err buffer_error
    else ok (record self { buffer = self.buffer ++ bytes })

unfoldable pub write_eof : StreamWriter → StreamWriter
write_eof self = record self { is_closed = true }

unfoldable pub get_next_index : StreamWriter → ℕ × StreamWriter
get_next_index self = (self.index, record self { index = self.index + 1 })

-- `SandboxStdinWriteRequest`, or `RuntimeInputMessage` for a container process
pub record Request : Type 0 where
  pub index : ℕ
  pub eof : Bool
  pub input : Bytes

-- how the remote call ends: the status of its error
pub data Status : Type 0 where
  failed_precondition other_status : Status

pub data DrainError : Type 0 where
  value_error grpc_error : DrainError

abbrev pub drained : Option Status → Option DrainError
drained none = none
drained (some failed_precondition) = some value_error
drained (some other_status) = some grpc_error

-- the request sent, what is raised, and the writer after it
unfoldable pub drain : Option Status → StreamWriter → Request × Option DrainError × StreamWriter
unfolding get_next_index
drain answer self =
    let bytes = self.buffer in
    let (index, next) = get_next_index (record self { buffer = [] }) in
    (record { index = index; eof = next.is_closed; input = bytes }, drained answer, next)
