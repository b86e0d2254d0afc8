-- ===== src/Blobs/Assembly.antt =====
-- The parts of an upload (modal/_utils/blob_utils.py), put together again.
use modal_client.Prelude.{
  ℕ, zero, suc, ◌+◌, ◌-◌, ◌*◌, ◌≤◌, ◌<◌, ◌≡◌, refl, sym, ◌∙◌, ap, min, inl, inr, length, drop-drop,
  drop-all, take-append-drop, Option-cases, take, drop, Option, none, some, List, [], ◌∷◌, ◌++◌,
  arith,
}
use modal_client.Blobs.Segment.{Bytes, new_payload}
use modal_client.Blobs.SegmentLaws.{write_with_length-segment}
use modal_client.Blobs.Multipart.{Part, parts_from, multipart, sent_part}

abbrev pub after_part : Option Bytes → Option Bytes → Option Bytes
after_part (some sent) (some rest) = some (sent ++ rest)
after_part _ _ = none

-- the parts one after the other, if none fails
abbrev pub assembled : Bytes → ℕ → List Part → Option Bytes
assembled content chunk_size [] = some []
assembled content chunk_size (part ∷ parts) =
    after_part (sent_part content chunk_size part) (assembled content chunk_size parts)

payload_made :
    (content : Bytes) (offset len chunk_size : ℕ)
    → offset + len ≤ length content
    → new_payload content 0 offset len chunk_size ≡ none
    → ⊥
unfolding new_payload
payload_made content offset len chunk_size fits refused = ground (arith, fits, refused)

sent_part-segment :
    (content : Bytes) (chunk_size : ℕ) (part : Part)
    → 0 < chunk_size
    → part.file_offset + part.part_length_bytes ≤ length content
    → sent_part content chunk_size part
      ≡ some (take part.part_length_bytes (drop part.file_offset content))
unfolding sent_part
sent_part-segment content chunk_size part pos fits =
    elim (Option-cases (new_payload content 0 part.file_offset part.part_length_bytes chunk_size)) [
      | inl refused ↦
          absurd
            (payload_made content part.file_offset part.part_length_bytes chunk_size fits refused)
      | inr (p, made) ↦
          rw (made, sent_part)
            (ap some
                (write_with_length-segment none content 0 part.file_offset part.part_length_bytes
                  chunk_size p made (omega (arith, pos))).0
              ∙ ap (λ n. some (take part.part_length_bytes (drop n content))) (omega arith))
    ]

pub assembled-cons :
    (content : Bytes) (chunk_size : ℕ) (part : Part) (parts : List Part) (sent rest : Bytes)
    → sent_part content chunk_size part ≡ some sent
    → assembled content chunk_size parts ≡ some rest
    → assembled content chunk_size (part ∷ parts) ≡ some (sent ++ rest)
assembled-cons content chunk_size part parts sent rest now later = rw (now, later) refl

rest_fits : (left most urls : ℕ) → left ≤ suc urls * most → left - min left most ≤ urls * most
rest_fits left most urls h = grind arith

parts_from-assembled :
    (content : Bytes) (chunk_size max_part_size urls number offset left : ℕ)
    → 0 < chunk_size
    → offset + left ≡ length content
    → left ≤ urls * max_part_size
    → assembled content chunk_size (parts_from max_part_size urls number offset left)
      ≡ some (drop offset content)
unfolding parts_from
parts_from-assembled content chunk_size most zero number offset left pos here enough =
    ap some (sym (drop-all offset content (omega (arith, here, enough))))
parts_from-assembled content chunk_size most (suc urls) number offset left pos here enough =
    let k : ℕ = min left most in
    let part : Part = record {
      part_number = number;
      file_offset = offset;
      part_length_bytes = k;
    } in
    assembled-cons content chunk_size part _ (take k (drop offset content))
      (drop (offset + k) content)
      (sent_part-segment content chunk_size part pos (omega (arith, here)))
      (parts_from-assembled content chunk_size most urls (number + 1) (offset + k) (left - k) pos
        (omega (arith, here)) (rest_fits left most urls enough))
    ∙ (ap some (
        ap (λ xs. take k (drop offset content) ++ xs)
          (sym (drop-drop offset k (offset + k) content refl))
        ∙ take-append-drop k (drop offset content)))

-- If the URLs are enough for the file at the size of a part, then no part fails, and the bytes that the
-- parts send are, in the order of the parts, the file.
pub multipart-assembled :
    (content : Bytes) (chunk_size max_part_size urls : ℕ)
    → 0 < chunk_size
    → length content ≤ urls * max_part_size
    → assembled content chunk_size (multipart (length content) max_part_size urls) ≡ some content
multipart-assembled content chunk_size most urls pos enough =
    parts_from-assembled content chunk_size most urls 1 0 (length content) pos (omega arith) enough
