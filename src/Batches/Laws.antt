-- ===== src/Batches/Laws.antt =====
-- Nothing is lost, repeated or reordered by `queue_batch_iterator` (modal/_utils/async_utils.py), and
-- no batch is empty or too large.
use modal_client.Prelude.{
  ℕ, suc, ◌≤◌, ◌<◌, ◌≡◌, refl, Bool, true, false, Bool-cases, inl, inr, ◌&&◌, ltb, leb, lt→ltb,
  ltb→lt, length, length-append, Option, none, some, List, [], ◌∷◌, ◌++◌, concat, All, append_assoc,
  arith, ◌∙◌, ap,
}
use modal_client.Batches.{Read, batches_from, queue_batch_iterator, yield_if, kept, on_result}

module _ {A : Type 0} where
  abbrev pub before_end : Option A → Option (List A) → Option (List A)
  before_end none rest = some []
  before_end (some x) none = none
  before_end (some x) (some xs) = some (x ∷ xs)

  -- the items before the None that ends the queue, if it is read
  abbrev pub closed_items : List (Read A) → Option (List A)
  closed_items [] = none
  closed_items (r ∷ reads) = before_end r.result (closed_items reads)

  -- what a round holds is yielded before what it yields later
  concat-yield_kept :
      (b : Bool) (xs : List A) (bs : List (List A)) (ys : List A)
      → concat bs ≡ kept b xs ++ ys
      → concat (yield_if b xs bs) ≡ xs ++ ys
  concat-yield_kept true xs bs ys h = ap (λ zs. xs ++ zs) h
  concat-yield_kept false xs bs ys h = h

  concat-last : (xs : List A) → concat (yield_if (ltb 0 (length xs)) xs []) ≡ xs ++ []
  concat-last [] = refl
  concat-last (x ∷ xs) = rw (lt→ltb 0 (suc (length xs)) (omega arith))

  concat-on_result :
      (o : Option A) (now : List A) (again : A → List (List A)) (later : Option (List A))
      (xs : List A)
      → before_end o later ≡ some xs
      → ((x : A) (ys : List A) → later ≡ some ys → concat (again x) ≡ (now ++ x ∷ []) ++ ys)
      → concat (on_result o now again) ≡ now ++ xs
  concat-on_result none now again later xs h k =
      concat-last now ∙ ap (λ zs. now ++ zs) (ground (arith, h))
  concat-on_result (some x) now again none xs h k = cc
  concat-on_result (some x) now again (some ys) xs h k =
      k x ys refl ∙ append_assoc now (x ∷ []) ys ∙ ap (λ zs. now ++ zs) (ground (arith, h))

  batches_from-concat :
      (n : ℕ) (item_list : List A) (reads : List (Read A)) (xs : List A)
      → closed_items reads ≡ some xs
      → concat (batches_from n item_list reads) ≡ item_list ++ xs
  unfolding batches_from
  batches_from-concat n item_list [] xs h = cc
  batches_from-concat n item_list (r ∷ reads) xs h =
      let idle = r.empty && ltb 0 (length item_list) in
      let after_idle = kept idle item_list in
      let full = leb n (length after_idle) in
      let now = kept full after_idle in
      concat-yield_kept idle item_list _ xs (
        concat-yield_kept full after_idle _ xs (
          concat-on_result r.result now _ (closed_items reads) xs h
            (λ x ys. batches_from-concat n (now ++ x ∷ []) reads ys)))

  -- Whenever the queue seems empty, if the queue is read up to its end, then the batches hold exactly
  -- the items before the end, in order.
  pub queue_batch_iterator-concat :
      (n : ℕ) (reads : List (Read A)) (xs : List A)
      → closed_items reads ≡ some xs
      → concat (queue_batch_iterator n reads) ≡ xs
  unfolding queue_batch_iterator
  queue_batch_iterator-concat n reads xs h = batches_from-concat n [] reads xs h

  -- from one item to as many as a request may hold
  abbrev pub IsBatch : ℕ → List A → Type 0
  IsBatch n b = (0 < length b) × (length b ≤ n)

  sizes-yield_if :
      (n : ℕ) (b : Bool) (xs : List A) (bs : List (List A))
      → (b ≡ true → IsBatch n xs)
      → All (IsBatch n) bs
      → All (IsBatch n) (yield_if b xs bs)
  sizes-yield_if n true xs bs h k = (h refl, k)
  sizes-yield_if n false xs bs h k = k

  length-kept : (b : Bool) (xs : List A) → length (kept b xs) ≤ length xs
  length-kept true xs = omega arith
  length-kept false xs = omega arith

  room : (n : ℕ) (xs : List A) → 0 < n → length (kept (leb n (length xs)) xs) < n
  room n xs h = elim (Bool-cases (leb n (length xs))) [
    | inl full ↦ rw full h
    | inr free ↦ rw free (ground (arith, free))
  ]

  sizes-on_result :
      (n : ℕ) (o : Option A) (now : List A) (again : A → List (List A))
      → length now ≤ n
      → ((x : A) → All (IsBatch n) (again x))
      → All (IsBatch n) (on_result o now again)
  sizes-on_result n none now again h k =
      sizes-yield_if n _ now [] (λ some_left. (ltb→lt 0 _ some_left, h)) tt
  sizes-on_result n (some x) now again h k = k x

  batches_from-sizes :
      (n : ℕ) (item_list : List A) (reads : List (Read A))
      → 0 < n
      → length item_list ≤ n
      → All (IsBatch n) (batches_from n item_list reads)
  unfolding batches_from
  batches_from-sizes n item_list [] p h = tt
  batches_from-sizes n item_list (r ∷ reads) p h =
      let idle = r.empty && ltb 0 (length item_list) in
      let after_idle = kept idle item_list in
      let full = leb n (length after_idle) in
      let now = kept full after_idle in
      let fits = length-kept idle item_list in
      let free = room n after_idle p in
      sizes-yield_if n idle item_list _ (λ yes_idle. (ground (arith, yes_idle), h))
        (sizes-yield_if n full after_idle _
          (λ yes_full. (ground (arith, yes_full), omega (arith, fits)))
          (sizes-on_result n r.result now _ (omega (arith, free)) (λ x.
            batches_from-sizes n (now ++ x ∷ []) reads p
              (omega (arith, length-append now (x ∷ []), free)))))

  -- If the largest size is positive, no batch is empty or larger than it.
  queue_batch_iterator-sizes :
      (n : ℕ) (reads : List (Read A)) → 0 < n → All (IsBatch n) (queue_batch_iterator n reads)
  unfolding queue_batch_iterator
  queue_batch_iterator-sizes n reads p = batches_from-sizes n [] reads p (omega arith)
