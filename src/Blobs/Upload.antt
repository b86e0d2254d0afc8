-- ===== src/Blobs/Upload.antt =====
-- The whole of `perform_multipart_upload` and what is around it in modal/_utils/blob_utils.py. The answers to the
-- requests, the digest and the decoding of hexadecimal digits are parameters; a request is sent once.
use Prim.Native.Char.{code}
use Prim.Native.String.{String}
use modal_client.Prelude.{
  ℕ, ◌+◌, ◌-◌, ◌==◌, Bool, true, false, not, ◌||◌, length, Option, none, some, Result, ok, err,
  ◌>>=◌, List, [], ◌∷◌, ◌++◌, concat, if◌then◌else◌,
}
use modal_client.FilePatterns.Text.{Text, text_eq, startswith, endswith}
use modal_client.Blobs.Segment.{Bytes, SegmentPayload, new_payload, write_with_length}
use modal_client.Blobs.Multipart.{
  Part, multipart, UploadError, assertion_error, value_error, bad_completion, hash_mismatch,
  unknown_host, PutResponse, upload_to_s3_url,
}

abbrev pub codes : String → Text
codes String.[] = []
codes (String.◌∷◌ c s) = code c ∷ codes s

-- `part in text`
abbrev pub is_in : Text → Text → Bool
is_in part [] = startswith [] part
is_in part (c ∷ cs) = startswith (c ∷ cs) part || is_in part cs

-- the answer to the request that completes the upload
pub record PostResponse : Type 0 where
  pub status : ℕ
  pub body : Text

-- `str` of a number, `hexdigest` of the MD5, `bytes.fromhex`, and what the server answers
pub record Outside : Type 0 where
  pub str_int : ℕ → Text
  pub md5 : Bytes → Text
  pub fromhex : Text → Option Bytes
  pub put : Text → Bytes → PutResponse
  pub post : Text → Text → PostResponse

-- the size from the position on
unfoldable pub get_content_length : Bytes → ℕ → ℕ
get_content_length content pos = length content - pos

-- an S3 address gets a checksum, by its host
unfoldable pub use_md5 : Text → Result UploadError Bool
use_md5 host =
    if endswith host (codes ".amazonaws.com") || endswith host (codes ".r2.cloudflarestorage.com")
    then ok true
    else if text_eq host (codes "127.0.0.1")
        || (text_eq host (codes "localhost") || text_eq host (codes "172.21.0.1"))
    then ok false
    else err unknown_host

module _ (o : Outside) where
  -- one part: its payload is sent, and the answer is compared with the checksum of what was sent
  unfoldable pub put_part : Text → Option SegmentPayload → Result UploadError Text
  unfolding upload_to_s3_url
  put_part url none = err assertion_error
  put_part url (some p) =
      let (written, q) = write_with_length none p in
      upload_to_s3_url (o.md5 q.digested) (o.put url (concat written))

  -- The parts in order, up to the first error. They are sent at once, so another part's error may be the one that is
  -- raised; without an error the order makes no difference.
  unfoldable pub put_parts : Bytes → ℕ → List Part → List Text → Result UploadError (List Text)
  put_parts content chunk_size (part ∷ parts) (url ∷ urls) =
      let rest = put_parts content chunk_size parts urls in
      put_part url (new_payload content 0 part.file_offset part.part_length_bytes chunk_size)
      >>= λ etag. rest >>= λ etags. ok (etag ∷ etags)
  put_parts content chunk_size _ _ = ok []

  abbrev pub body_parts : ℕ → List Text → Text
  body_parts part_number [] = []
  body_parts part_number (etag ∷ etags) =
      codes "<Part>\n<PartNumber>"
      ++ o.str_int part_number
      ++ codes "</PartNumber>\n<ETag>\""
      ++ etag
      ++ codes "\"</ETag>\n</Part>\n"
      ++ body_parts (part_number + 1) etags

  unfoldable pub completion_body : List Text → Text
  completion_body etags =
      codes "<CompleteMultipartUpload>\n"
      ++ body_parts 1 etags
      ++ codes "</CompleteMultipartUpload>"

  abbrev pub bin_hash_parts : List Text → Result UploadError (List Bytes)
  bin_hash_parts [] = ok []
  bin_hash_parts (etag ∷ etags) = elim (o.fromhex etag) [
    | none ↦ err value_error
    | some bytes ↦ bin_hash_parts etags >>= λ rest. ok (bytes ∷ rest)
  ]

  abbrev pub expected_multipart_etag : List Bytes → Text
  expected_multipart_etag parts = o.md5 (concat parts) ++ b'-' ∷ o.str_int (length parts)

  unfoldable pub complete : Text → PostResponse → Result {0, 0} UploadError Unit
  complete expected resp =
      if not (resp.status == 200)
      then err bad_completion
      else if not (is_in expected resp.body)
      then err hash_mismatch
      else ok tt

  unfoldable pub perform_multipart_upload :
      Bytes → ℕ → ℕ → ℕ → List Text → Text → Result {0, 0} UploadError Unit
  unfolding put_parts completion_body complete
  perform_multipart_upload content content_length max_part_size chunk_size part_urls
        completion_url =
      put_parts content chunk_size (multipart content_length max_part_size (length part_urls))
        part_urls
      >>= λ etags. bin_hash_parts etags >>= λ hashes.
          complete (expected_multipart_etag hashes) (o.post completion_url (completion_body etags))
