-- ===== src/Blobs/Integrity.antt =====
-- What an upload in parts (modal/_utils/blob_utils.py) has sent when it ends without an error.
use modal_client.Prelude.{
  subst, ℕ, zero, suc, ◌*◌, ◌≤◌, ◌<◌, ◌≡◌, refl, sym, ◌∙◌, ap, ◌==◌, true, Bool-cases, inl, inr,
  length, Option, none, some, Result, ok, err, bind-ok, List, [], ◌∷◌, map, concat, if◌then◌else◌,
  arith,
}
use modal_client.FilePatterns.Text.{Text, text_eq→eq, text_eq}
use modal_client.Blobs.Segment.{Bytes, SegmentPayload, new_payload, write_with_length}
use modal_client.Blobs.SegmentLaws.{write_with_length-segment}
use modal_client.Blobs.Multipart.{
  Part, parts_from, multipart, sent_part, UploadError, checksum_mismatch, PutResponse, parse_etag,
  upload_to_s3_url,
}
use modal_client.Blobs.Assembly.{assembled, assembled-cons, multipart-assembled}
use modal_client.Blobs.Upload.{
  Outside, PostResponse, is_in, put_part, put_parts, bin_hash_parts, completion_body,
  expected_multipart_etag, complete, perform_multipart_upload,
}

upload_to_s3_url-checked :
    (md5 etag : Text) (resp : PutResponse) → upload_to_s3_url md5 resp ≡ ok etag → etag ≡ md5
unfolding upload_to_s3_url
upload_to_s3_url-checked md5 etag resp e = elim (Bool-cases (resp.status == 200)) [
  | inr bad ↦ absurd (ground (arith, e, bad))
  | inl good ↦
      let compare : Text → Result UploadError Text =
        λ remote. if text_eq md5 remote then ok remote else err checksum_mismatch in
      let (remote, parsed, same) =
        bind-ok (parse_etag resp.etag) compare etag (ground (arith, e, good)) in
      elim (Bool-cases (text_eq md5 remote)) [
        | inl eq ↦
            let found : md5 ≡ remote = text_eq→eq md5 remote eq in ground (arith, same, eq, found)
        | inr ne ↦ absurd (ground (arith, same, ne))
      ]
]

-- the PUT of these bytes to the URL is answered with their MD5
abbrev pub IsAccepted : Outside → Text → Bytes → Type 0
IsAccepted o url sent = upload_to_s3_url (o.md5 sent) (o.put url sent) ≡ ok (o.md5 sent)

abbrev pub AreAccepted : Outside → List Text → List Bytes → Type 0
AreAccepted o [] [] = Unit
AreAccepted o (url ∷ urls) (sent ∷ sents) = IsAccepted o url sent × AreAccepted o urls sents
AreAccepted o _ _ = ⊥

-- the PUT of what the payload writes, with the MD5 of what it digests
put_payload : Outside → Text → SegmentPayload → Result UploadError Text
put_payload o url p =
    let (written, q) = write_with_length none p in
    upload_to_s3_url (o.md5 q.digested) (o.put url (concat written))

-- a part whose payload was made
put_part-some :
    (o : Outside) (url etag : Text) (made : Option SegmentPayload)
    → put_part o url made ≡ ok etag
    → (p : SegmentPayload) × (made ≡ some p) × (put_payload o url p ≡ ok etag)
unfolding put_part put_payload
put_part-some o url etag none e = absurd (ground (arith, e))
put_part-some o url etag (some p) e = (p, refl, e)

put_payload-IsAccepted :
    (o : Outside) (url etag : Text) (p : SegmentPayload)
    → (write_with_length none p).1.digested ≡ concat (write_with_length none p).0
    → put_payload o url p ≡ ok etag
    → (etag ≡ o.md5 (concat (write_with_length none p).0))
      × IsAccepted o url (concat (write_with_length none p).0)
unfolding put_payload
put_payload-IsAccepted o url etag p fed e =
    let sent : Bytes = concat (write_with_length none p).0 in
    let put : upload_to_s3_url (o.md5 sent) (o.put url sent) ≡ ok etag =
      subst (λ d. upload_to_s3_url (o.md5 d) (o.put url sent) ≡ ok etag) fed e in
    let same : etag ≡ o.md5 sent =
      upload_to_s3_url-checked (o.md5 sent) etag (o.put url sent) put in
    (same, put ∙ ap ok same)

sent_part-some :
    (content : Bytes) (chunk_size : ℕ) (part : Part) (p : SegmentPayload)
    → new_payload content 0 part.file_offset part.part_length_bytes chunk_size ≡ some p
    → sent_part content chunk_size part ≡ some (concat (write_with_length none p).0)
unfolding sent_part
sent_part-some content chunk_size part p made = rw (made, sent_part) refl

put_part-md5 :
    (o : Outside) (content : Bytes) (chunk_size : ℕ) (part : Part) (url etag : Text)
    → 0 < chunk_size
    → put_part o url (new_payload content 0 part.file_offset part.part_length_bytes chunk_size)
      ≡ ok etag
    → (sent : Bytes) × (sent_part content chunk_size part ≡ some sent)
      × (etag ≡ o.md5 sent)
      × IsAccepted o url sent
put_part-md5 o content chunk_size part url etag pos e =
    let (p, made, put) =
      put_part-some o url etag
        (new_payload content 0 part.file_offset part.part_length_bytes chunk_size) e in
    let fed =
      (write_with_length-segment none content 0 part.file_offset part.part_length_bytes chunk_size p
        made (omega (arith, pos))).1 in
    let accepted = put_payload-IsAccepted o url etag p fed put in
    (
      concat (write_with_length none p).0,
      sent_part-some content chunk_size part p made,
      accepted.0,
      accepted.1,
    )

put_parts-sents :
    (o : Outside) (content : Bytes) (chunk_size : ℕ) (parts : List Part) (urls etags : List Text)
    → 0 < chunk_size
    → length parts ≡ length urls
    → put_parts o content chunk_size parts urls ≡ ok etags
    → (sents : List Bytes) × (assembled content chunk_size parts ≡ some (concat sents))
      × (etags ≡ map o.md5 sents)
      × AreAccepted o urls sents
unfolding put_parts
put_parts-sents o content chunk_size [] [] etags pos same e = ([], refl, ground (arith, e), tt)
put_parts-sents o content chunk_size [] (url ∷ urls) etags pos same e = absurd (omega (arith, same))
put_parts-sents o content chunk_size (part ∷ parts) [] etags pos same e =
    absurd (omega (arith, same))
put_parts-sents o content chunk_size (part ∷ parts) (url ∷ urls) etags pos same e =
    let made : Option SegmentPayload =
      new_payload content 0 part.file_offset part.part_length_bytes chunk_size in
    let (etag, first, chain) = bind-ok (put_part o url made) _ etags e in
    let (others, rest, whole) =
      bind-ok (put_parts o content chunk_size parts urls) (λ etags. ok (etag ∷ etags)) etags
        chain in
    let (sent, now, tag, accepted) = put_part-md5 o content chunk_size part url etag pos first in
    let (sents, later, tags, all_accepted) =
      put_parts-sents o content chunk_size parts urls others pos (omega (arith, same)) rest in
    (
      sent ∷ sents,
      assembled-cons content chunk_size part parts sent (concat sents) now later,
      ground (arith, whole, tag, tags),
      (accepted, all_accepted),
    )

length-parts_from :
    (most urls number offset left : ℕ) → length (parts_from most urls number offset left) ≡ urls
unfolding parts_from
length-parts_from most zero number offset left = refl
length-parts_from most (suc urls) number offset left = ap suc (length-parts_from most urls _ _ _)

complete-checked :
    (o : Outside) (expected : Text) (resp : PostResponse)
    → complete o expected resp ≡ ok tt
    → is_in expected resp.body ≡ true
unfolding complete
complete-checked o expected resp e = ground (arith, e)

some-injective : {A : Type 0} (a b : A) → some a ≡ some b → a ≡ b
some-injective a b e = ground (arith, e)

-- If the URLs are enough for the file, and an upload in parts ends without an error, then the file is cut into one
-- piece for each URL, the PUT of that piece to its URL is accepted with the MD5 of the piece, and the answer to the
-- request that completes the upload has in it the checksum that S3 computes for those pieces, from the MD5 of each.
pub perform_multipart_upload-integrity :
    (o : Outside) (content : Bytes) (max_part_size chunk_size : ℕ) (part_urls : List Text)
    (completion_url : Text)
    → 0 < chunk_size
    → length content ≤ length part_urls * max_part_size
    → perform_multipart_upload o content
        (length content)
        max_part_size
        chunk_size
        part_urls
        completion_url
      ≡ ok tt
    → (sents : List Bytes) × (concat sents ≡ content)
      × AreAccepted o part_urls sents
      × (hashes : List Bytes) × (bin_hash_parts o (map o.md5 sents) ≡ ok hashes)
      × (is_in
            (expected_multipart_etag o hashes)
            (o.post completion_url (completion_body o (map o.md5 sents))).body
          ≡ true)
unfolding perform_multipart_upload
perform_multipart_upload-integrity o content most chunk_size urls completion_url pos enough e =
    let (etags, uploaded, chain) =
      bind-ok (put_parts o content chunk_size (multipart (length content) most (length urls)) urls)
        _ tt e in
    let (hashes, hashed, done) = bind-ok (bin_hash_parts o etags) _ tt chain in
    let (sents, whole, tags, accepted) =
      put_parts-sents o content chunk_size _ urls etags pos
        (length-parts_from most (length urls) 1 0 (length content)) uploaded in
    (
      sents,
      some-injective (concat sents) content
          (sym whole ∙ multipart-assembled content chunk_size most (length urls) pos enough),
      accepted,
      hashes,
      ap (λ ts. bin_hash_parts o ts) (sym tags) ∙ hashed,
      ap
            (λ ts.
              is_in (expected_multipart_etag o hashes)
                (o.post completion_url (completion_body o ts)).body)
            (sym tags)
          ∙ complete-checked o (expected_multipart_etag o hashes)
              (o.post completion_url (completion_body o etags)) done,
    )
