-- ===== src/Blobs/Segment.antt =====
-- `BytesIOSegmentPayload` of modal/_utils/bytes_io_segment_payload.py. `read(n)` gives n bytes, or what is left
-- of the file.
use modal_client.Prelude.{
  ℕ, zero, suc, ◌+◌, ◌-◌, ◌^◌, min, ltb, leb, length, take, drop, Option, none, some, List, [], ◌∷◌,
  ◌++◌, if◌then◌else◌,
}

abbrev pub Bytes : Type 0
Bytes = List ℕ

abbrev pub default_segment_chunk_size : ℕ
default_segment_chunk_size = 2 ^ 24

-- `_value` is `content`; the checksum is over `digested`
pub record SegmentPayload : Type 0 where
  pub content : Bytes
  pub initial_seek_pos : ℕ
  pub segment_start : ℕ
  pub segment_length : ℕ
  pub chunk_size : ℕ
  pub num_bytes_read : ℕ
  pub digested : Bytes

-- the `assert` of the constructor: from where the segment starts, the file is long enough
unfoldable pub new_payload : Bytes → ℕ → ℕ → ℕ → ℕ → Option SegmentPayload
new_payload content initial_seek_pos segment_start segment_length chunk_size =
    if leb (initial_seek_pos + segment_start + segment_length) (length content)
    then some (record {
      content = content;
      initial_seek_pos = initial_seek_pos;
      segment_start = segment_start;
      segment_length = segment_length;
      chunk_size = chunk_size;
      num_bytes_read = 0;
      digested = [];
    })
    else none

unfoldable pub reset_state : SegmentPayload → SegmentPayload
reset_state p = record p { num_bytes_read = 0; digested = [] }

abbrev pub remaining_bytes : SegmentPayload → ℕ
remaining_bytes p = p.segment_length - p.num_bytes_read

-- how many bytes a read asks for
abbrev pub num_bytes : Option ℕ → ℕ → ℕ → ℕ
num_bytes none chunk_size remaining = min chunk_size remaining
num_bytes (some content_length) chunk_size remaining = min (min chunk_size remaining) content_length

unfoldable pub safe_read : Option ℕ → SegmentPayload → Bytes × SegmentPayload
safe_read content_length p =
    let read_start = p.initial_seek_pos + p.segment_start + p.num_bytes_read in
    let chunk =
      take (num_bytes content_length p.chunk_size (remaining_bytes p))
        (drop read_start p.content) in
    (
      chunk,
      record p { num_bytes_read = p.num_bytes_read + length chunk; digested = p.digested ++ chunk },
    )

-- what the loop writes, from a chunk on that was read, and the payload after it
abbrev pub write_chunk :
    (SegmentPayload → List Bytes × SegmentPayload)
    → Bytes
    → SegmentPayload
    → List Bytes × SegmentPayload
write_chunk again [] p = ([], p)
write_chunk again (c ∷ cs) p =
    if ltb 0 (remaining_bytes p)
    then (let (ys, q) = again p in ((c ∷ cs) ∷ ys, q))
    else ((c ∷ cs) ∷ [], p)

-- The loop, with fuel: a round reads a byte at least, or ends.
unfoldable pub write_chunks : ℕ → Option ℕ → SegmentPayload → List Bytes × SegmentPayload
write_chunks zero content_length p = ([], p)
write_chunks (suc fuel) content_length p =
    let (chunk, q) = safe_read content_length p in
    write_chunk (λ q. write_chunks fuel content_length q) chunk q

unfoldable pub write_with_length : Option ℕ → SegmentPayload → List Bytes × SegmentPayload
write_with_length content_length p = write_chunks (p.segment_length + 1) content_length p
