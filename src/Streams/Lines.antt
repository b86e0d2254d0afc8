-- ===== src/Streams/Lines.antt =====
-- `_StreamReader._get_logs_by_line` of modal/io_streams.py.
use modal_client.Prelude.{
  ℕ, zero, suc, ◌==◌, length, Option, none, some, List, [], ◌∷◌, ◌++◌, map, if◌then◌else◌,
}

abbrev pub Bytes : Type 0
Bytes = List ℕ

abbrev pub newline : ℕ
newline = b'\n'

abbrev pub before : ℕ → Option (Bytes × Bytes) → Option (Bytes × Bytes)
before c none = none
before c (some (line, rest)) = some (c ∷ line, rest)

-- `buffer.split(b"\n", 1)` if `b"\n" in buffer`
unfoldable pub split_once : Bytes → Option (Bytes × Bytes)
split_once [] = none
split_once (c ∷ cs) =
    let later = before c (split_once cs) in if c == newline then some ([], cs) else later

-- The `while` loop, with fuel: the lines that it yields, and the buffer that it leaves.
unfoldable pub take_lines : ℕ → Bytes → List Bytes × Bytes
take_lines zero buffer = ([], buffer)
take_lines (suc fuel) buffer = elim (split_once buffer) [
  | none ↦ ([], buffer)
  | some (line, rest) ↦
      let (lines, left) = take_lines fuel rest in ((line ++ newline ∷ []) ∷ lines, left)
]

-- one message: what is yielded, and `_line_buffer` after it; each line takes a byte at least
unfoldable pub on_message : Option Bytes → Bytes → List (Option Bytes) × Bytes
on_message none [] = (none ∷ [], [])
on_message none (c ∷ cs) = (some (c ∷ cs) ∷ none ∷ [], [])
on_message (some message) buffer =
    let (lines, left) = take_lines (length (buffer ++ message)) (buffer ++ message) in
    (map some lines, left)

unfoldable pub get_logs_by_line : List (Option Bytes) → Bytes → List (Option Bytes) × Bytes
get_logs_by_line [] buffer = ([], buffer)
get_logs_by_line (message ∷ messages) buffer =
    let (ys, left) = on_message message buffer in
    let (zs, last) = get_logs_by_line messages left in (ys ++ zs, last)
