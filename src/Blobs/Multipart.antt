-- ===== src/Blobs/Multipart.antt =====
-- `perform_multipart_upload` of modal/_utils/blob_utils.py. The hash of the checksums and the decoding of
-- hexadecimal digits are parameters, and so is the answer to each request.
use modal_client.Prelude.{
  ℕ, zero, suc, ◌+◌, ◌-◌, min, ◌==◌, Bool, false, not, ◌&&◌, ◌||◌, drop, Option, none, some, Result,
  ok, err, ◌>>=◌, List, [], ◌∷◌, concat, if◌then◌else◌,
}
use modal_client.FilePatterns.Text.{Text, text_eq, startswith, strip, is_space}
use modal_client.Blobs.Segment.{Bytes, new_payload, write_with_length}

-- one part: its number, where it starts and how long it is
pub record Part : Type 0 where
  pub part_number : ℕ
  pub file_offset : ℕ
  pub part_length_bytes : ℕ

-- the loop over the URLs, from a part's number on
unfoldable pub parts_from : ℕ → ℕ → ℕ → ℕ → ℕ → List Part
parts_from max_part_size zero part_number file_offset num_bytes_left = []
parts_from max_part_size (suc urls) part_number file_offset num_bytes_left =
    let part_length = min num_bytes_left max_part_size in
    record { part_number = part_number; file_offset = file_offset; part_length_bytes = part_length }
    ∷ parts_from max_part_size urls (part_number + 1) (file_offset + part_length)
        (num_bytes_left - part_length)

abbrev pub multipart : ℕ → ℕ → ℕ → List Part
multipart content_length max_part_size urls = parts_from max_part_size urls 1 0 content_length

-- what one part sends: its reader is its own, at the start of the file; an assertion may fail
unfoldable pub sent_part : Bytes → ℕ → Part → Option Bytes
sent_part content chunk_size part =
    elim (new_payload content 0 part.file_offset part.part_length_bytes chunk_size) [
      | none ↦ none
      | some p ↦ some (concat (write_with_length none p).0)
    ]

pub data UploadError : Type 0 where
  bad_status checksum_mismatch index_error assertion_error value_error bad_completion hash_mismatch
        unknown_host :
      UploadError

-- `etag[0]` and `etag[-1]` are quotes
abbrev pub last_is_quote : Text → Bool
last_is_quote [] = false
last_is_quote (c ∷ []) = c == b'"'
last_is_quote (c ∷ d ∷ rest) = last_is_quote (d ∷ rest)

abbrev pub but_last : Text → Text
but_last [] = []
but_last (c ∷ []) = []
but_last (c ∷ d ∷ rest) = c ∷ but_last (d ∷ rest)

abbrev pub unquoted : Text → Result UploadError Text
unquoted [] = err index_error
unquoted (c ∷ cs) = if (c == b'"') && last_is_quote (c ∷ cs) then ok (but_last cs) else ok (c ∷ cs)

abbrev pub drop_weak : Text → Text
drop_weak etag =
    if startswith etag (b'W' ∷ b'/' ∷ []) || startswith etag (b'w' ∷ b'/' ∷ [])
    then drop 2 etag
    else etag

unfoldable pub parse_etag : Text → Result UploadError Text
parse_etag header = unquoted (drop_weak (strip is_space header))

-- the answer to `put`
pub record PutResponse : Type 0 where
  pub status : ℕ
  pub etag : Text

-- `_upload_to_s3_url` once, after the payload is sent
unfoldable pub upload_to_s3_url : Text → PutResponse → Result UploadError Text
unfolding parse_etag
upload_to_s3_url local_md5_hex resp =
    if not (resp.status == 200)
    then err bad_status
    else parse_etag resp.etag >>= λ remote_md5.
        if text_eq local_md5_hex remote_md5 then ok remote_md5 else err checksum_mismatch
