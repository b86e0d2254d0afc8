-- ===== src/Blobs/SegmentLaws.antt =====
-- What `BytesIOSegmentPayload` (modal/_utils/bytes_io_segment_payload.py) writes.
use modal_client.Prelude.{
  ℕ, zero, suc, ◌+◌, ◌-◌, ◌≤◌, ◌<◌, ◌≡◌, refl, sym, ◌∙◌, ap, ltb, leb, true, Bool-cases, inl, inr,
  length, length-take, length-drop, take-append, drop-drop, take, drop, concat, Option, none, some,
  List, [], ◌∷◌, ◌++◌, append-nil, append_assoc, arith, subst,
}
use modal_client.Blobs.Segment.{
  Bytes, SegmentPayload, new_payload, remaining_bytes, num_bytes, safe_read, write_chunk,
  write_chunks, write_with_length,
}

-- the part of the file that is left to send
abbrev pub unsent : SegmentPayload → Bytes
unsent p =
    take (remaining_bytes p)
      (drop (p.initial_seek_pos + p.segment_start + p.num_bytes_read) p.content)

-- the segment lies in the file, and the reads ask for bytes
pub record IsReady (content_length : Option ℕ) (p : SegmentPayload) : Type 0 where
  pub inside : p.initial_seek_pos + p.segment_start + p.segment_length ≤ length p.content
  pub counted : p.num_bytes_read ≤ p.segment_length
  pub asks : 0 < num_bytes content_length p.chunk_size 1

num_bytes_bounds :
    (c : Option ℕ) (size remaining : ℕ)
    → 0 < num_bytes c size 1
    → (num_bytes c size remaining ≤ remaining) × ((num_bytes c size remaining ≡ 0) → remaining ≡ 0)
num_bytes_bounds none size remaining h = (omega arith, λ e. omega (arith, e, h))
num_bytes_bounds (some n) size remaining h = (omega arith, λ e. omega (arith, e, h))

-- what a chunk and the bytes after it are together
read_some :
    (content_length : Option ℕ) (p : SegmentPayload)
    → IsReady content_length p
    → let (chunk, q) = safe_read content_length p in
      (unsent p ≡ chunk ++ unsent q)
      × (q.digested ≡ p.digested ++ chunk)
      × IsReady content_length q
      × (remaining_bytes q + length chunk ≡ remaining_bytes p)
      × ((length chunk ≡ 0) → remaining_bytes p ≡ 0)
unfolding safe_read
read_some content_length p ready = rw size (
  take-append (remaining_bytes p) k (remaining_bytes p - k) left (omega (arith, bounds.0))
      ∙ ap (λ xs. take k left ++ xs)
          (ap (λ xs. take (remaining_bytes p - k) xs)
              (drop-drop (p.initial_seek_pos + p.segment_start + p.num_bytes_read) k
                (p.initial_seek_pos + p.segment_start + (p.num_bytes_read + k)) p.content
                (omega arith))
            ∙ ap
                (λ n.
                  take n (
                    drop (p.initial_seek_pos + p.segment_start + (p.num_bytes_read + k)) p.content))
                (omega arith)),
  refl,
  record {
    inside = ready.inside;
    counted = omega (arith, bounds.0, ready.counted);
    asks = ready.asks;
  },
  omega (arith, bounds.0),
  bounds.1,
)
  where
    k : ℕ
    k = num_bytes content_length p.chunk_size (remaining_bytes p)

    left : Bytes
    left = drop (p.initial_seek_pos + p.segment_start + p.num_bytes_read) p.content

    bounds : (k ≤ remaining_bytes p) × ((k ≡ 0) → remaining_bytes p ≡ 0)
    bounds = num_bytes_bounds content_length p.chunk_size (remaining_bytes p) ready.asks

    size : length (take k left) ≡ k
    size = length-take k left (
        omega (
          arith,
          bounds.0,
          ready.inside,
          ready.counted,
          length-drop (p.initial_seek_pos + p.segment_start + p.num_bytes_read) p.content,
        ))

-- what the loop does from a state on
abbrev Sends : SegmentPayload → List Bytes × SegmentPayload → Type 0
Sends p (written, q) = (concat written ≡ unsent p) × (q.digested ≡ p.digested ++ unsent p)

unsent-none : (p : SegmentPayload) → remaining_bytes p ≡ 0 → unsent p ≡ []
unsent-none p h =
    ap (λ n. take n (drop (p.initial_seek_pos + p.segment_start + p.num_bytes_read) p.content)) h

write_chunk-Sends :
    (again : SegmentPayload → List Bytes × SegmentPayload) (chunk : Bytes) (p q : SegmentPayload)
    → unsent p ≡ chunk ++ unsent q
    → q.digested ≡ p.digested ++ chunk
    → ((length chunk ≡ 0) → remaining_bytes p ≡ 0)
    → ((0 < length chunk) → Sends q (again q))
    → Sends p (write_chunk again chunk q)
write_chunk-Sends again [] p q split fed empty later =
    let over : unsent p ≡ [] = unsent-none p (empty refl) in
    (sym over, fed ∙ ap (λ xs. p.digested ++ xs) (sym over))
write_chunk-Sends again (c ∷ cs) p q split fed empty later =
    elim (Bool-cases (ltb 0 (remaining_bytes q))) [
      | inl more ↦ rw more (
        ap (λ xs. c ∷ (cs ++ xs)) (later (omega arith)).0 ∙ sym split,
        (later (omega arith)).1
            ∙ ap (λ xs. xs ++ unsent q) fed
            ∙ append_assoc p.digested (c ∷ cs) (unsent q)
            ∙ ap (λ xs. p.digested ++ xs) (sym split),
      )
      | inr over ↦ rw over (
          let last : unsent p ≡ c ∷ cs =
            split
            ∙ ap (λ xs. c ∷ (cs ++ xs)) (unsent-none q (ground (arith, over)))
            ∙ append-nil (c ∷ cs) in
          (append-nil (c ∷ cs) ∙ sym last, fed ∙ ap (λ xs. p.digested ++ xs) (sym last)))
    ]

write_chunks-Sends :
    (fuel : ℕ) (content_length : Option ℕ) (p : SegmentPayload)
    → IsReady content_length p
    → remaining_bytes p < fuel
    → Sends p (write_chunks fuel content_length p)
unfolding write_chunks
write_chunks-Sends zero content_length p ready enough = absurd (omega (arith, enough))
write_chunks-Sends (suc fuel) content_length p ready enough =
    let (chunk, q) = safe_read content_length p in
    let (split, fed, ready', less, empty) = read_some content_length p ready in
    write_chunk-Sends (λ q. write_chunks fuel content_length q) chunk p q split fed empty
      (λ some_bytes.
        write_chunks-Sends fuel content_length q ready' (omega (arith, enough, less, some_bytes)))

-- If the segment lies in the file and no read asks for nothing, then the chunks that are written are
-- together the bytes of the segment, and the checksum is over the same bytes: whatever the chunk size, and
-- the length that the transport announces.
pub write_with_length-segment :
    (content_length : Option ℕ) (content : Bytes)
    (initial_seek_pos segment_start segment_length chunk_size : ℕ) (p : SegmentPayload)
    → new_payload content initial_seek_pos segment_start segment_length chunk_size ≡ some p
    → 0 < num_bytes content_length chunk_size 1
    → let (written, q) = write_with_length content_length p in
      (concat written ≡ take segment_length (drop (initial_seek_pos + segment_start) content))
      × (q.digested ≡ concat written)
unfolding write_with_length new_payload
write_with_length-segment content_length content pos start len size p made asks =
    elim (Bool-cases (leb (pos + start + len) (length content))) [
      | inr short ↦ absurd (ground (arith, made, short))
      | inl fits ↦ subst Goal (ground (arith, made, fits)) (at_start fits)
    ]
  where
    fresh : SegmentPayload
    fresh = record {
      content = content;
      initial_seek_pos = pos;
      segment_start = start;
      segment_length = len;
      chunk_size = size;
      num_bytes_read = 0;
      digested = [];
    }

    Goal : SegmentPayload → Type 0
    Goal p =
        let (written, q) = write_chunks (p.segment_length + 1) content_length p in
        (concat written ≡ take len (drop (pos + start) content)) × (q.digested ≡ concat written)

    at_start : leb (pos + start + len) (length content) ≡ true → Goal fresh
    at_start fits =
        let sends =
          write_chunks-Sends (len + 1) content_length fresh
            (record { inside = ground (arith, fits); counted = omega arith; asks = asks })
            (omega arith) in
        let whole : unsent fresh ≡ take len (drop (pos + start) content) =
          ap (λ n. take n (drop (pos + start + 0) content)) (omega arith)
          ∙ ap (λ n. take len (drop n content)) (omega arith) in
        (sends.0 ∙ whole, sends.1 ∙ sym sends.0)
