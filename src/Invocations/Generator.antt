-- ===== src/Invocations/Generator.antt =====
-- `run_generator` of modal/_functions.py, of both kinds of invocation: what the caller gets, from the items in the
-- order in which they come.
use modal_client.Prelude.{
  ℕ, zero, suc, ◌+◌, ◌-◌, ◌≡◌, refl, ◌∙◌, ap, leb, Bool, true, false, Option, none, some, List, [],
  ◌∷◌, ◌++◌, map, length, take, if◌then◌else◌, arith,
}

-- an item of the generator, or `GeneratorDone`, with `items_total`
pub data Streamed (A : Type 0) : Type 0 where
  item : A → Streamed A
  generator_done : ℕ → Streamed A

-- the test at the end of a round
abbrev pub is_enough : Option ℕ → ℕ → Bool
is_enough none items_received = false
is_enough (some items_total) items_received = leb items_total items_received

abbrev pub unless_enough : {A : Type 0} → Option ℕ → ℕ → List A → List A
unless_enough items_total items_received rest =
    if is_enough items_total items_received then [] else rest

unfoldable pub generated : {A : Type 0} → ℕ → Option ℕ → List (Streamed A) → List A
generated items_received items_total [] = []
generated items_received items_total (generator_done total ∷ rest) =
    unless_enough (some total) items_received (generated items_received (some total) rest)
generated items_received items_total (item a ∷ rest) =
    a
    ∷ unless_enough items_total (items_received + 1)
        (generated (items_received + 1) items_total rest)

abbrev pub run_generator : {A : Type 0} → List (Streamed A) → List A
run_generator stream = generated 0 none stream

-- before the generator is done, every item goes to the caller
generated-before :
    {A : Type 0} (n : ℕ) (before : List A) (rest : List (Streamed A))
    → generated n none (map item before ++ rest) ≡ before ++ generated (n + length before) none rest
unfolding generated
generated-before n [] rest = ap (λ m. generated m none rest) (omega arith)
generated-before n (a ∷ before) rest =
    ap (λ xs. a ∷ xs)
      (generated-before (n + 1) before rest
        ∙ ap (λ m. before ++ generated m none rest) (omega arith))

-- after it, those that are missing
generated-after :
    {A : Type 0} (n total m : ℕ) (after : List A)
    → total ≡ n + suc m
    → generated n (some total) (map item after) ≡ take (suc m) after
unfolding generated
generated-after n total m [] missing = refl
generated-after n total zero (a ∷ after) missing =
    let over : leb total (n + 1) ≡ true = ground (arith, missing) in rw over refl
generated-after n total (suc m) (a ∷ after) missing =
    let more : leb total (n + 1) ≡ false = ground (arith, missing) in
    rw more (ap (λ xs. a ∷ xs) (generated-after (n + 1) total m after (omega (arith, missing))))

done-items :
    {A : Type 0} (n total m : ℕ) (after : List A)
    → total - n ≡ m
    → generated n none (generator_done total ∷ map item after) ≡ take m after
unfolding generated
done-items n total zero after missing =
    let over : leb total n ≡ true = ground (arith, missing) in rw over refl
done-items n total (suc m) after missing =
    let more : leb total n ≡ false = ground (arith, missing) in
    rw more (generated-after n total m after (omega (arith, missing)))

-- The caller gets the items that come before the generator is done, and of those after it as many as are
-- missing of its total: none if there are enough, also when a retried generator gives fewer than before.
run_generator-items :
    {A : Type 0} (before after : List A) (total : ℕ)
    → run_generator (map item before ++ generator_done total ∷ map item after)
      ≡ before ++ take (total - length before) after
run_generator-items before after total =
    generated-before 0 before (generator_done total ∷ map item after)
    ∙ ap (λ xs. before ++ xs)
        (done-items (0 + length before) total (total - length before) after (omega arith))
