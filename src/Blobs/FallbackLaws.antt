-- ===== src/Blobs/FallbackLaws.antt =====
-- Which upload `_blob_upload_with_fallback` of modal/_utils/blob_utils.py settles on.
use modal_client.Prelude.{
  ℕ, suc, ◌+◌, ◌-◌, ◌≡◌, refl, ◌∙◌, ap, ltb, ◌==◌, Bool, true, false, ◌||◌, length, length-append,
  Result, ok, err, List, [], ◌∷◌, ◌++◌, map, All, is_empty, subst, is_empty, arith,
}
use modal_client.FilePatterns.Text.{Text}
use modal_client.Blobs.Fallback.{
  FallbackError, raised, is_r2, Uploaded, throughput, try_upload, skipped, Target, tried, any_r2,
  fallback_from, blob_upload_with_fallback,
}

or_swap : (a b c : Bool) → (b || (a || c)) ≡ ((a || b) || c)
or_swap true true c = refl
or_swap true false c = refl
or_swap false true c = refl
or_swap false false c = refl

is_last :
    {A : Type 0} (idx count : ℕ) (failed : List (Target A)) (t : Target A) (rest : List (Target A))
    → idx + length (failed ++ t ∷ rest) ≡ count
    → (idx + length failed == count - 1) ≡ is_empty rest
is_last idx count failed t [] counted = ground (arith, counted, length-append failed (t ∷ []))
is_last idx count failed t (u ∷ rest) counted =
    ground (arith, counted, length-append failed (t ∷ u ∷ rest))

length-map-first : {A : Type 0} (ts : List (Target A)) → length (map (λ t. t.0) ts) ≡ length ts
length-map-first [] = refl
length-map-first (t ∷ ts) = ap suc (length-map-first ts)

or_false : (b : Bool) → (b || false) ≡ b
or_false true = refl
or_false false = refl

module _ {A E : Type 0} where
  abbrev pub IsFailing : (A → Result E ℕ) → Target A → Type 0
  IsFailing callback t = (e : E) × (callback t.0 ≡ err e)

  -- after failures, the round that settles it
  fallback_from-settles :
      (callback : A → Result E ℕ) (content_length count : ℕ) (skips : Bool) (idx : ℕ)
      (r2_failed : Bool) (failed : List (Target A)) (t : Target A) (rest : List (Target A))
      → skipped idx count skips ≡ false
      → idx + length (failed ++ t ∷ rest) ≡ count
      → All (IsFailing callback) failed
      → fallback_from callback content_length count skips idx r2_failed
          (map (λ t. t.0) (failed ++ t ∷ rest))
          (map (λ t. t.1) (failed ++ t ∷ rest))
        ≡ try_upload t.1 content_length
            (idx + length failed == count - 1)
            (any_r2 failed || r2_failed)
            (callback t.0)
            (λ r2.
              fallback_from callback content_length count skips
                (idx + length failed + 1)
                r2
                (map (λ t. t.0) rest)
                (map (λ t. t.1) rest))
  unfolding fallback_from try_upload
  fallback_from-settles callback len count skips idx r2_failed [] t rest runs counted fails =
      let here_ : idx + 0 ≡ idx = omega arith in rw (runs, here_) refl
  fallback_from-settles callback len count skips idx r2_failed (s ∷ failed) t rest runs counted
        ((e, fail), fails) =
      let not_last : (idx == count - 1) ≡ false =
        ground (arith, counted, length-append failed (t ∷ rest)) in
      let shifted : idx + 1 + length failed ≡ idx + suc (length failed) = omega arith in
      rw (runs, fail, not_last)
        (fallback_from-settles callback len count skips (idx + 1) (is_r2 s.1 || r2_failed) failed t
            rest (ground arith) (omega (arith, counted)) fails
          ∙ rw (or_swap (is_r2 s.1) (any_r2 failed) r2_failed, shifted) refl)

  -- the round that settles it, among those from a round on
  abbrev Settled :
      (A → Result E ℕ)
      → ℕ
      → List (Target A)
      → Target A
      → List (Target A)
      → Bool
      → Result (FallbackError E) Uploaded
      → Type 0
  Settled callback content_length failed t rest r2_failed result =
      (later : Bool → Result (FallbackError E) Uploaded) × (result
        ≡ try_upload t.1 content_length (is_empty rest) (any_r2 failed || r2_failed) (callback t.0)
            later)

  from_round :
      (callback : A → Result E ℕ) (content_length count : ℕ) (skips : Bool) (idx : ℕ)
      (targets failed : List (Target A)) (t : Target A) (rest : List (Target A))
      → skipped idx count skips ≡ false
      → idx + length targets ≡ count
      → targets ≡ failed ++ t ∷ rest
      → All (IsFailing callback) failed
      → Settled callback content_length failed t rest false (
          fallback_from callback content_length count skips idx false
            (map (λ t. t.0) targets)
            (map (λ t. t.1) targets))
  from_round callback len count skips idx targets failed t rest runs counted split fails =
      let counted' : idx + length (failed ++ t ∷ rest) ≡ count =
        subst (λ ts. idx + length ts ≡ count) split counted in
      (
        _,
        ap
              (λ ts.
                fallback_from callback len count skips idx false (map (λ t. t.0) ts)
                  (map (λ t. t.1) ts))
              split
            ∙ fallback_from-settles callback len count skips idx false failed t rest runs counted'
                fails
            ∙ ap
                (λ b. try_upload t.1 len b (any_r2 failed || false) (callback t.0) (λ r2.
                  fallback_from callback len count skips (idx + length failed + 1) r2
                    (map (λ t. t.0) rest) (map (λ t. t.1) rest)))
                (is_last idx count failed t rest counted'),
      )

  -- the same with the first round, which may be skipped
  settles :
      (callback : A → Result E ℕ) (skips : Bool) (content_length : ℕ)
      (targets failed : List (Target A)) (t : Target A) (rest : List (Target A))
      → tried skips targets ≡ failed ++ t ∷ rest
      → All (IsFailing callback) failed
      → Settled callback content_length failed t rest false (
          blob_upload_with_fallback callback skips
            (map (λ t. t.0) targets)
            (map (λ t. t.1) targets)
            content_length)
  unfolding blob_upload_with_fallback fallback_from
  settles callback skips len [] failed t rest split fails =
      absurd (omega (arith, ap length split, length-append failed (t ∷ rest)))
  settles callback skips len (s ∷ []) failed t rest split fails =
      from_round callback len 1 skips 0 (s ∷ []) failed t rest refl refl split fails
  settles callback false len (s ∷ u ∷ ts) failed t rest split fails =
      let count : ℕ = suc (suc (length (map (λ t. t.0) ts))) in
      from_round callback len count false 0 (s ∷ u ∷ ts) failed t rest (ground arith)
        (omega (arith, length-map-first ts)) split fails
  settles callback true len (s ∷ u ∷ ts) failed t rest split fails =
      let count : ℕ = suc (suc (length (map (λ t. t.0) ts))) in
      let many : ltb 1 count ≡ true = ground arith in
      let (later, e) =
        from_round callback len count true 1 (u ∷ ts) failed t rest refl
          (omega (arith, length-map-first ts)) split fails in
      (later, rw many e)

-- If the uploads that are not skipped fail up to one that succeeds, then the result is the blob of that one,
-- whether a failed one went to R2, and the throughput of it when it goes to R2.
pub blob_upload_with_fallback-first_success :
    {A E : Type 0} (callback : A → Result E ℕ) (skips : Bool) (content_length : ℕ)
    (targets failed : List (Target A)) (item : A) (blob_id : Text) (rest : List (Target A))
    (dt_ns : ℕ)
    → tried skips targets ≡ failed ++ (item, blob_id) ∷ rest
    → All (IsFailing callback) failed
    → callback item ≡ ok dt_ns
    → blob_upload_with_fallback callback skips
        (map (λ t. t.0) targets)
        (map (λ t. t.1) targets)
        content_length
      ≡ ok (blob_id, any_r2 failed, throughput blob_id content_length dt_ns)
unfolding try_upload
blob_upload_with_fallback-first_success callback skips len targets failed item blob_id rest dt split
      fails works =
    (settles callback skips len targets failed (item, blob_id) rest split fails).1
    ∙ rw (works, or_false (any_r2 failed)) refl

-- If there are addresses and every upload that is not skipped fails, then the error of the last one is
-- raised, and not the `ExecutionError` of the end.
pub blob_upload_with_fallback-last_error :
    {A E : Type 0} (callback : A → Result E ℕ) (skips : Bool) (content_length : ℕ)
    (targets failed : List (Target A)) (item : A) (blob_id : Text) (e : E)
    → tried skips targets ≡ failed ++ (item, blob_id) ∷ []
    → All (IsFailing callback) failed
    → callback item ≡ err e
    → blob_upload_with_fallback callback skips
        (map (λ t. t.0) targets)
        (map (λ t. t.1) targets)
        content_length
      ≡ err (raised e)
unfolding try_upload
blob_upload_with_fallback-last_error callback skips len targets failed item blob_id e split fails
      breaks =
    (settles callback skips len targets failed (item, blob_id) [] split fails).1 ∙ rw breaks refl
