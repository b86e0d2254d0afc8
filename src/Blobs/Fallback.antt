-- ===== src/Blobs/Fallback.antt =====
-- `_blob_upload_with_fallback` of modal/_utils/blob_utils.py: an upload is tried at one address after the other.
-- The upload is a parameter, with the time it takes; `skips` is the outcome of the random test.
use modal_client.Prelude.{
  ℕ, ◌+◌, ◌-◌, ◌*◌, ◌/◌, ◌^◌, max, ltb, ◌==◌, Bool, false, ◌&&◌, ◌||◌, length, Result, ok, err,
  List, [], ◌∷◌, if◌then◌else◌,
}
use modal_client.FilePatterns.Text.{Text, endswith}

-- an error of the upload, or the `ExecutionError` at the end
pub data FallbackError (E : Type 0) : Type 0 where
  raised : E → FallbackError E
  no_upload : FallbackError E

abbrev pub is_r2 : Text → Bool
is_r2 blob_id = endswith blob_id (b':' ∷ b'r' ∷ b'2' ∷ [])

-- the blob, whether an upload to R2 failed, and the throughput in bytes a second
abbrev pub Uploaded : Type 0
Uploaded = Text × Bool × ℕ

abbrev pub throughput : Text → ℕ → ℕ → ℕ
throughput blob_id content_length dt_ns =
    if is_r2 blob_id then (content_length * 10 ^ 9) / max dt_ns 1 else 0

-- the `try` of one round, and the rounds after it
unfoldable pub try_upload :
    {E : Type 0}
    → Text
    → ℕ
    → Bool
    → Bool
    → Result E ℕ
    → (Bool → Result (FallbackError E) Uploaded)
    → Result (FallbackError E) Uploaded
try_upload blob_id content_length is_last r2_failed (ok dt_ns) later =
    ok (blob_id, r2_failed, throughput blob_id content_length dt_ns)
try_upload blob_id content_length is_last r2_failed (err e) later =
    if is_last then err (raised e) else later (is_r2 blob_id || r2_failed)

abbrev pub skipped : ℕ → ℕ → Bool → Bool
skipped idx count skips = (idx == 0) && (ltb 1 count && skips)

-- an address with the blob it is for
abbrev pub Target : Type 0 → Type 0
Target A = A × Text

-- the rounds that are not skipped
abbrev pub tried : {A : Type 0} → Bool → List (Target A) → List (Target A)
tried skips [] = []
tried skips (t ∷ []) = t ∷ []
tried skips (t ∷ u ∷ ts) = if skips then u ∷ ts else t ∷ u ∷ ts

abbrev pub any_r2 : {A : Type 0} → List (Target A) → Bool
any_r2 [] = false
any_r2 (t ∷ ts) = is_r2 t.1 || any_r2 ts

module _ {A E : Type 0} where
  -- the loop, from a round on
  unfoldable pub fallback_from :
      (A → Result E ℕ)
      → ℕ
      → ℕ
      → Bool
      → ℕ
      → Bool
      → List A
      → List Text
      → Result (FallbackError E) Uploaded
  unfolding try_upload
  fallback_from callback content_length count skips idx r2_failed (item ∷ items)
        (blob_id ∷ blob_ids) =
      if skipped idx count skips
      then fallback_from callback content_length count skips (idx + 1) r2_failed items blob_ids
      else try_upload blob_id content_length (idx == count - 1) r2_failed (callback item)
          (λ r2. fallback_from callback content_length count skips (idx + 1) r2 items blob_ids)
  fallback_from callback content_length count skips idx r2_failed [] blob_ids = err no_upload
  fallback_from callback content_length count skips idx r2_failed (item ∷ items) [] = err no_upload

  unfoldable pub blob_upload_with_fallback :
      (A → Result E ℕ) → Bool → List A → List Text → ℕ → Result (FallbackError E) Uploaded
  blob_upload_with_fallback callback skips items blob_ids content_length =
      fallback_from callback content_length (length items) skips 0 false items blob_ids
