-- ===== src/Batches/Examples.antt =====
-- A queue that is read in batches of at most two (modal/_utils/async_utils.py).
use modal_client.Prelude.{ℕ, ◌≡◌, refl, true, false, none, some, List, [], ◌∷◌, concat}
use modal_client.Batches.{Read, queue_batch_iterator}
use modal_client.Batches.Laws.{queue_batch_iterator-concat}

abbrev reads : List (Read ℕ)
reads =
    record { empty = true; result = some 1 }
    ∷ record { empty = false; result = some 2 }
    ∷ record { empty = false; result = some 3 }
    ∷ record { empty = true; result = some 4 }
    ∷ record { empty = false; result = none }
    ∷ []

batches : queue_batch_iterator 2 reads ≡ (1 ∷ 2 ∷ []) ∷ (3 ∷ []) ∷ (4 ∷ []) ∷ []
unfolding queue_batch_iterator
batches = refl

queue_batch_iterator-concat_example : concat (queue_batch_iterator 2 reads) ≡ 1 ∷ 2 ∷ 3 ∷ 4 ∷ []
queue_batch_iterator-concat_example = queue_batch_iterator-concat 2 reads (1 ∷ 2 ∷ 3 ∷ 4 ∷ []) refl
