-- ===== src/Blobs/Examples.antt =====
-- Tests and concrete runs of the uploads (modal/_utils/blob_utils.py and
-- modal/_utils/bytes_io_segment_payload.py).
use modal_client.Prelude.{
  ℕ, ◌≤◌, ◌≡◌, refl, Bool, true, false, none, some, Result, ok, err, List, [], ◌∷◌, ◌++◌, map,
  concat, length, All, arith,
}
use modal_client.FilePatterns.Text.{Text}
use modal_client.Blobs.Segment.{
  Bytes, SegmentPayload, new_payload, write_with_length, write_chunks, safe_read,
}
use modal_client.Blobs.Multipart.{parts_from, multipart, upload_to_s3_url, parse_etag, bad_status}
use modal_client.Blobs.Assembly.{assembled, multipart-assembled}
use modal_client.Blobs.Blocks.{
  Reader, ceildiv, block_size, hash_blocks_sha256, hash_blocks_sha256-blocks,
}
use modal_client.Blobs.Upload.{
  Outside, codes, is_in, put_part, put_parts, bin_hash_parts, completion_body,
  expected_multipart_etag, complete, perform_multipart_upload,
}
use modal_client.Blobs.Integrity.{AreAccepted, perform_multipart_upload-integrity}
use modal_client.Blobs.Fallback.{
  Target, blob_upload_with_fallback, raised, fallback_from, try_upload,
}
use modal_client.Blobs.FallbackLaws.{blob_upload_with_fallback-first_success}

abbrev file : Bytes
file = 1 ∷ 2 ∷ 3 ∷ 4 ∷ 5 ∷ []

abbrev middle : SegmentPayload
middle = record {
  content = file;
  initial_seek_pos = 0;
  segment_start = 1;
  segment_length = 3;
  chunk_size = 2;
  num_bytes_read = 0;
  digested = [];
}

middle_written : (write_with_length none middle).0 ≡ (2 ∷ 3 ∷ []) ∷ (4 ∷ []) ∷ []
unfolding write_with_length write_chunks safe_read
middle_written = refl

multipart-assembled_example : assembled file 16 (multipart 5 2 3) ≡ some file
multipart-assembled_example = multipart-assembled file 16 2 3 (omega arith) (omega arith)

abbrev one_byte : Reader
one_byte _ _ = 1

hash_blocks_sha256-blocks_example :
    (blocks : List Bytes) × (hash_blocks_sha256 ℕ length one_byte file (length file)
      ≡ map length blocks)
    × (concat blocks ≡ file)
    × All (λ b. length b ≤ block_size) blocks
    × (length blocks ≡ ceildiv (length file) block_size)
hash_blocks_sha256-blocks_example =
    hash_blocks_sha256-blocks ℕ length one_byte file (λ _ _. omega arith)

etag_header :
    upload_to_s3_url (codes "ab") (record { status = 200; etag = codes "W/\"ab\"" })
    ≡ ok (codes "ab")
unfolding upload_to_s3_url parse_etag
etag_header = refl

slow_down : upload_to_s3_url (codes "ab") (record { status = 503; etag = [] }) ≡ err bad_status
unfolding upload_to_s3_url
slow_down = refl

-- a server whose checksum of some bytes is the bytes
abbrev mirror : Outside
mirror = record {
  str_int = λ n. n ∷ [];
  md5 = λ bytes. b'#' ∷ bytes;
  fromhex = λ text. some text;
  put = λ url bytes. record { status = 200; etag = b'"' ∷ b'#' ∷ bytes ++ b'"' ∷ [] };
  post = λ url body. record { status = 200; body = codes "##" ++ 1 ∷ 2 ∷ b'#' ∷ 3 ∷ b'-' ∷ 2 ∷ [] };
}

abbrev two_urls : List Text
two_urls = codes "a" ∷ codes "b" ∷ []

two_parts : perform_multipart_upload mirror (1 ∷ 2 ∷ 3 ∷ []) 3 2 16 two_urls [] ≡ ok tt
unfolding perform_multipart_upload put_parts put_part parts_from new_payload write_with_length
    write_chunks safe_read upload_to_s3_url parse_etag complete
two_parts = refl

perform_multipart_upload-integrity_example :
    (sents : List Bytes) × (concat sents ≡ 1 ∷ 2 ∷ 3 ∷ [])
    × AreAccepted mirror two_urls sents
    × (hashes : List Bytes) × (bin_hash_parts mirror (map mirror.md5 sents) ≡ ok hashes)
    × (is_in
          (expected_multipart_etag mirror hashes)
          (mirror.post [] (completion_body mirror (map mirror.md5 sents))).body
        ≡ true)
perform_multipart_upload-integrity_example =
    perform_multipart_upload-integrity mirror (1 ∷ 2 ∷ 3 ∷ []) 2 16 two_urls [] (omega arith)
      (omega arith) two_parts

abbrev r2_then_s3 : List (Target Bool)
r2_then_s3 = (false, codes "x:r2") ∷ (true, codes "y") ∷ []

abbrev works_if : Bool → Result Text ℕ
works_if true = ok 7
works_if false = err (codes "down")

blob_upload_with_fallback-first_success_example :
    blob_upload_with_fallback works_if false
      (map (λ t. t.0) r2_then_s3)
      (map (λ t. t.1) r2_then_s3)
      100
    ≡ ok (codes "y", true, 0)
blob_upload_with_fallback-first_success_example =
    blob_upload_with_fallback-first_success works_if false 100 r2_then_s3
      ((false, codes "x:r2") ∷ []) true (codes "y") [] 7 refl ((codes "down", refl), tt) refl

abbrev both_down : List (Target Bool)
both_down = (false, codes "x:r2") ∷ (false, codes "y") ∷ []

both_fail :
    blob_upload_with_fallback works_if true
      (map (λ t. t.0) both_down)
      (map (λ t. t.1) both_down)
      100
    ≡ err (raised (codes "down"))
unfolding blob_upload_with_fallback fallback_from try_upload
both_fail = refl
