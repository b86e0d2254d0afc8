-- ===== src/AsyncUtils/Items.antt =====
-- Lists by index and dictionaries, for the items of `async_map_ordered` (modal/_utils/async_utils.py).
use modal_client.Prelude.{
  ℕ, zero, suc, ◌<◌, ◌≡◌, refl, ap, inl, inr, false, Bool-cases, Option, none, some, List, [], ◌∷◌,
  ◌++◌, map, length, take, drop, ◌==◌, ==→eq, arith,
}
use modal_client.Prelude.Dict.{Dict, lookup, erase, IsDict, lookup-erase_ne, lookup-erase_self}

-- the i-th item
abbrev pub item_at : {A : Type 0} → ℕ → List A → Option A
item_at i [] = none
item_at zero (x ∷ xs) = some x
item_at (suc i) (x ∷ xs) = item_at i xs

pub drop-item :
    {A : Type 0} (i : ℕ) (xs : List A) (x : A) (rest : List A)
    → drop i xs ≡ x ∷ rest
    → (item_at i xs ≡ some x) × (drop (suc i) xs ≡ rest) × (i < length xs)
drop-item zero [] x rest e = absurd (ground (arith, e))
drop-item zero (y ∷ xs) x rest e = (grind (arith, e), grind (arith, e), omega arith)
drop-item (suc i) [] x rest e = absurd (ground (arith, e))
drop-item (suc i) (y ∷ xs) x rest e =
    let (at, later, lt) = drop-item i xs x rest e in (at, later, omega (arith, lt))

pub drop-more :
    {A : Type 0} (i : ℕ) (xs : List A)
    → i < length xs
    → (x : A) × (rest : List A) × (drop i xs ≡ x ∷ rest)
drop-more i [] lt = absurd (omega (arith, lt))
drop-more zero (x ∷ xs) lt = (x, xs, refl)
drop-more (suc i) (y ∷ xs) lt = drop-more i xs (omega (arith, lt))

pub take-item :
    {A B : Type 0} (f : A → B) (i : ℕ) (xs : List A) (x : A)
    → item_at i xs ≡ some x
    → map f (take (suc i) xs) ≡ map f (take i xs) ++ f x ∷ []
take-item f i [] x e = absurd (ground (arith, e))
take-item f zero (y ∷ xs) x e = grind (arith, e)
take-item f (suc i) (y ∷ xs) x e = ap (λ ys. f y ∷ ys) (take-item f i xs x e)

pub erase-old :
    {V : Type 0} (i k : ℕ) (v : V) (d : Dict V)
    → IsDict d
    → lookup i (erase k d) ≡ some v
    → ((i == k) ≡ false) × (lookup i d ≡ some v)
erase-old i k v d h e = elim (Bool-cases (i == k)) [
  | inl same ↦ absurd (ground (arith, e, same, lookup-erase_self k d h))
  | inr other ↦ (other, ground (arith, e, other, lookup-erase_ne i k d))
]

pub distinct_keys :
    {V : Type 0} (i k : ℕ) (v : V) (d : Dict V)
    → lookup i d ≡ none
    → lookup k d ≡ some v
    → (i == k) ≡ false
distinct_keys i k v d absent found = elim (Bool-cases (i == k)) [
  | inl same ↦ absurd (grind (arith, absent, found, ==→eq i k same))
  | inr other ↦ other
]
