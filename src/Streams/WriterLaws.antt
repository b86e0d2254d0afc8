-- ===== src/Streams/WriterLaws.antt =====
-- What `_StreamWriter` of modal/io_streams.py sends over any sequence of calls.
use modal_client.Prelude.{
  ℕ, ◌+◌, ◌≤◌, ◌≡◌, refl, true, false, ◌⊎◌, inl, inr, length, length-append, Option, List, [], ◌∷◌,
  ◌++◌, All, arith, ap, ◌∙◌, sym, append-nil, append_assoc, Result, ok, err,
}
use modal_client.Streams.Lines.{Bytes}
use modal_client.Streams.Writer.{
  StreamWriter, Request, Status, WriteError, max_buffer_size, write, write_eof, get_next_index,
  drain,
}

-- The calls of the code that holds the writer; a drain, with the answer of the server.
pub data Call : Type 0 where
  writes : Bytes → Call
  closes : Call
  drains : Option Status → Call

-- what a call accepts, what it sends, and the writer after it
pub record Traffic : Type 0 where
  pub accepted : Bytes
  pub requests : List Request
  pub final : StreamWriter

abbrev pub written : Bytes → StreamWriter → Result WriteError StreamWriter → Traffic
written bytes self (ok self') = record { accepted = bytes; requests = []; final = self' }
written _ self (err _) = record { accepted = []; requests = []; final = self }

unfoldable pub call : Call → StreamWriter → Traffic
call (writes bytes) self = written bytes self (write bytes self)
call closes self = record { accepted = []; requests = []; final = write_eof self }
call (drains answer) self =
    let (request, raised, self') = drain answer self in
    record { accepted = []; requests = request ∷ []; final = self' }

unfoldable pub run : List Call → StreamWriter → Traffic
run [] self = record { accepted = []; requests = []; final = self }
run (c ∷ cs) self =
    let first = call c self in
    let later = run cs first.final in
    record {
      accepted = first.accepted ++ later.accepted;
      requests = first.requests ++ later.requests;
      final = later.final;
    }

abbrev pub inputs : List Request → Bytes
inputs [] = []
inputs (r ∷ rs) = r.input ++ inputs rs

inputs-append : (rs ss : List Request) → inputs (rs ++ ss) ≡ inputs rs ++ inputs ss
inputs-append [] ss = refl
inputs-append (r ∷ rs) ss =
    ap (λ xs. r.input ++ xs) (inputs-append rs ss)
    ∙ sym (append_assoc r.input (inputs rs) (inputs ss))

abbrev refused : StreamWriter → Traffic
refused self = record { accepted = []; requests = []; final = self }

abbrev appended : Bytes → StreamWriter → Traffic
appended bytes self = record {
  accepted = bytes;
  requests = [];
  final = record self { buffer = self.buffer ++ bytes };
}

-- A write is refused, or it is appended to an open stream within the limit.
call-writes :
    (bytes : Bytes) (self : StreamWriter)
    → (call (writes bytes) self ≡ refused self)
      ⊎ ((call (writes bytes) self ≡ appended bytes self)
          × (self.is_closed ≡ false)
          × (length self.buffer + length bytes ≤ max_buffer_size))
unfolding call write
call-writes bytes self = ground arith

call_conserves :
    (c : Call) (self : StreamWriter)
    → self.buffer ++ (call c self).accepted
      ≡ inputs (call c self).requests ++ (call c self).final.buffer
unfolding call write write_eof drain get_next_index
call_conserves (writes bytes) self = elim (call-writes bytes self) [
  | inl same ↦ rw same (append-nil self.buffer)
  | inr (grown, _, _) ↦ rw grown refl
]
call_conserves closes self = append-nil self.buffer
call_conserves (drains answer) self = sym (append-nil (self.buffer ++ []))

-- Whatever is written, closed and drained, and whatever the server answers: the bytes in the requests,
-- followed by the buffer that remains, are the bytes that were buffered, followed by those of the
-- writes that were accepted, in order.
pub stream_conserved :
    (cs : List Call) (self : StreamWriter)
    → self.buffer ++ (run cs self).accepted
      ≡ inputs (run cs self).requests ++ (run cs self).final.buffer
unfolding run
stream_conserved [] self = append-nil self.buffer
stream_conserved (c ∷ cs) self =
    sym (append_assoc self.buffer first.accepted later.accepted)
    ∙ ap (λ xs. xs ++ later.accepted) (call_conserves c self)
    ∙ append_assoc (inputs first.requests) first.final.buffer later.accepted
    ∙ ap (λ xs. inputs first.requests ++ xs) (stream_conserved cs first.final)
    ∙ sym (append_assoc (inputs first.requests) (inputs later.requests) later.final.buffer)
    ∙ ap (λ xs. xs ++ later.final.buffer) (sym (inputs-append first.requests later.requests))
  where
    first : Traffic
    first = call c self

    later : Traffic
    later = run cs first.final

-- Indices `n`, `n + 1`, ... in order.
abbrev pub NumberedFrom : ℕ → List Request → Type 0
NumberedFrom n [] = Unit
NumberedFrom n (r ∷ rs) = (r.index ≡ n) × NumberedFrom (n + 1) rs

-- Requests are numbered without a gap from the writer's index on, the failed ones included, so a new
-- writer's from 1.
requests_numbered :
    (cs : List Call) (self : StreamWriter) → NumberedFrom self.index (run cs self).requests
unfolding run call write_eof drain get_next_index
requests_numbered [] self = tt
requests_numbered (writes bytes ∷ cs) self = elim (call-writes bytes self) [
  | inl same ↦ rw same (requests_numbered cs self)
  | inr (grown, _, _) ↦ rw grown (requests_numbered cs (appended bytes self).final)
]
requests_numbered (closes ∷ cs) self = requests_numbered cs (write_eof self)
requests_numbered (drains answer ∷ cs) self = (refl, requests_numbered cs (drain answer self).2)

-- A request that marks the end of the stream.
abbrev pub Ends : Request → Type 0
Ends r = r.eof ≡ true

-- After `write_eof` no write is accepted, and every request marks the end of the stream.
closed_is_final :
    (cs : List Call) (self : StreamWriter)
    → self.is_closed ≡ true
    → ((run cs self).accepted ≡ [])
      × All Ends (run cs self).requests
      × ((run cs self).final.is_closed ≡ true)
unfolding run call write write_eof drain get_next_index
closed_is_final [] self closed = (refl, tt, closed)
closed_is_final (writes bytes ∷ cs) self closed = elim (call-writes bytes self) [
  | inl same ↦ rw same (closed_is_final cs self closed)
  | inr (_, opened, _) ↦ absurd (ground (arith, closed, opened))
]
closed_is_final (closes ∷ cs) self closed = closed_is_final cs (write_eof self) refl
closed_is_final (drains answer ∷ cs) self closed =
    let (none_accepted, all_end, still) = closed_is_final cs (drain answer self).2 closed in
    (none_accepted, (closed, all_end), still)

-- The buffer of a writer that starts within the limit never grows past it.
pub buffer_bounded :
    (cs : List Call) (self : StreamWriter)
    → length self.buffer ≤ max_buffer_size
    → length (run cs self).final.buffer ≤ max_buffer_size
unfolding run call write write_eof drain get_next_index
buffer_bounded [] self small = small
buffer_bounded (writes bytes ∷ cs) self small = elim (call-writes bytes self) [
  | inl same ↦ rw same (buffer_bounded cs self small)
  | inr (grown, _, fits) ↦ rw grown (
      buffer_bounded cs (appended bytes self).final
        (omega (arith, length-append self.buffer bytes, fits)))
]
buffer_bounded (closes ∷ cs) self small = buffer_bounded cs (write_eof self) small
buffer_bounded (drains answer ∷ cs) self small =
    buffer_bounded cs (drain answer self).2 (omega arith)
