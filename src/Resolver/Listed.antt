-- ===== src/Resolver/Listed.antt =====
-- What `Resolver.objects` (modal/_resolver.py) lists.
use modal_client.Prelude.{
  ℕ, ◌≡◌, refl, ◌∙◌, ap, subst, inl, inr, ◌==◌, ==→eq, Bool, true, false, ◌||◌, Bool-cases,
  Option-cases, none, some, List, [], ◌∷◌, map, All, ok, ◌>>=◌, if◌then◌else◌, arith,
}
use modal_client.Prelude.Dict.{Dict, lookup, IsDict}
use modal_client.FilePatterns.Text.{Text, text_eq, text_eq→eq, text_eq_refl}
use modal_client.Resolver.{Objects, finished, LoadFuture, Resolver, new_resolver, is_hydrated}
use modal_client.Resolver.Load.{Event, run}
use modal_client.Resolver.Listing.{
  ById, setdefault, with_id, result_of, done_object, unique_objects, objects,
}
use modal_client.Resolver.Once.{run-AreTables, new_resolver-AreTables}
use modal_client.Resolver.Kept.{IsResolver, IsHydrated, IsPhase}
use modal_client.Resolver.Dependencies.{run-IsResolver, new_resolver-IsResolver}

abbrev pub has_key : Text → ById → Bool
has_key id [] = false
has_key id ((other, v) ∷ unique) = text_eq id other || has_key id unique

-- no id stands twice
abbrev pub AreUnique : ById → Type 0
AreUnique [] = Unit
AreUnique ((id, u) ∷ unique) = (has_key id unique ≡ false) × AreUnique unique

-- each object stands with its id
abbrev pub AreIds : Resolver → ById → Type 0
AreIds s unique = All (λ o. lookup o.1 s.object_ids ≡ some o.0) unique

on_choice :
    {A : Type 0} (P : A → Type 0) (b : Bool) (x y : A)
    → (b ≡ true → P x)
    → (b ≡ false → P y)
    → P (if b then x else y)
on_choice P true x y left right = left refl
on_choice P false x y left right = right refl

has_key-setdefault :
    (other id : Text) (u : ℕ) (unique : ById)
    → has_key other (setdefault id u unique) ≡ (text_eq other id || has_key other unique)
has_key-setdefault other id u [] = refl
has_key-setdefault other id u ((j, v) ∷ unique) =
    on_choice
      (λ d. has_key other d ≡ (text_eq other id || (text_eq other j || has_key other unique)))
      (text_eq id j) _ _ (λ same. ground (arith, ap (text_eq other) (text_eq→eq id j same)))
      (λ new. ground (arith, has_key-setdefault other id u unique))

other_key : (id j : Text) → text_eq id j ≡ false → text_eq j id ≡ false
other_key id j new = elim (Bool-cases (text_eq j id)) [
  | inl same ↦ absurd (ground (arith, new, text_eq_refl id, ap (text_eq id) (text_eq→eq j id same)))
  | inr differs ↦ differs
]

setdefault-AreUnique :
    (id : Text) (u : ℕ) (unique : ById) → AreUnique unique → AreUnique (setdefault id u unique)
setdefault-AreUnique id u [] h = (refl, tt)
setdefault-AreUnique id u ((j, v) ∷ unique) (fresh, h) =
    on_choice AreUnique (text_eq id j) _ _ (λ same. (fresh, h))
      (λ new. (
        ground (arith, has_key-setdefault j id u unique, fresh, other_key id j new),
        setdefault-AreUnique id u unique h,
      ))

setdefault-AreIds :
    (s : Resolver) (id : Text) (u : ℕ) (unique : ById)
    → lookup u s.object_ids ≡ some id
    → AreIds s unique
    → AreIds s (setdefault id u unique)
setdefault-AreIds s id u [] is h = (is, tt)
setdefault-AreIds s id u ((j, v) ∷ unique) is (first, h) =
    on_choice (AreIds s) (text_eq id j) _ _ (λ same. (first, h))
      (λ new. (first, setdefault-AreIds s id u unique is h))

-- the entries of the table, with futures that are done
abbrev IsDone : Resolver → ℕ × ℕ → Type 0
IsDone s e =
    (id : Text) × (lookup e.0 s.object_ids ≡ some id)
    × (done_object s (lookup e.1 s.futures) ≡ ok (id, e.0))

-- an object's id is in the list
abbrev pub IsListed : Resolver → ById → ℕ × ℕ → Type 0
IsListed s unique e = (id : Text) × (lookup e.0 s.object_ids ≡ some id) × (has_key id unique ≡ true)

unique_objects-IsListed :
    (s : Resolver) (entries : Dict ℕ) (unique : ById)
    → All (IsDone s) entries
    → AreUnique unique
    → AreIds s unique
    → (all : ById) × (unique_objects s entries unique ≡ ok all)
      × AreUnique all
      × AreIds s all
      × All (IsListed s all) entries
      × ((id : Text) → has_key id unique ≡ true → has_key id all ≡ true)
unfolding unique_objects
unique_objects-IsListed s [] unique h distinct ids =
    (unique, refl, distinct, ids, tt, λ id has. has)
unique_objects-IsListed s ((u, f) ∷ entries) unique ((id, is, done), h) distinct ids =
    let (all, made, all_distinct, all_ids, listed, keeps) =
      unique_objects-IsListed s entries (setdefault id u unique) h
        (setdefault-AreUnique id u unique distinct) (setdefault-AreIds s id u unique is ids) in
    (
      all,
      ap (λ r. r >>= λ o. unique_objects s entries (setdefault o.0 o.1 unique)) done ∙ made,
      all_distinct,
      all_ids,
      (
        (id, is, keeps id (ground (arith, has_key-setdefault id id u unique, text_eq_refl id))),
        listed,
      ),
      λ other has. keeps other (ground (arith, has_key-setdefault other id u unique, has)),
    )

later_entry :
    (u f v g : ℕ) (d : Dict ℕ)
    → lookup u d ≡ none
    → lookup v d ≡ some g
    → lookup v ((u, f) ∷ d) ≡ some g
later_entry u f v g d fresh e = elim (Bool-cases (v == u)) [
  | inl same ↦ absurd (grind (arith, fresh, e, ==→eq v u same))
  | inr other ↦ ground (arith, other, e)
]

-- an entry of a dict is what its key looks up
entries_found :
    (d : Dict ℕ)
    → IsDict d
    → (P : ℕ × ℕ → Type 0) → ((u f : ℕ) → lookup u d ≡ some f → P (u, f))
    → All P d
entries_found [] h P each = tt
entries_found ((u, f) ∷ d) (fresh, h) P each = (
  each u f (ground arith),
  entries_found d h P (λ v g e. each v g (later_entry u f v g d fresh e)),
)

finished-IsDone :
    (objs : Objects) (s : Resolver)
    → IsResolver objs s
    → ((f : ℕ) (a : LoadFuture) → lookup f s.futures ≡ some a → a.phase ≡ finished)
    → (u f : ℕ) → lookup u s.local_uuid_to_future ≡ some f
    → IsDone s (u, f)
finished-IsDone objs s h all_finished u f e = elim (Option-cases (lookup f s.futures)) [
  | inl missing ↦ absurd (ground (arith, h.tables u f e, missing))
  | inr (a, found) ↦
      let at = all_finished f a found in
      let same : a.obj ≡ u = grind (arith, h.tables u f e, found) in
      let hydrated : is_hydrated u s ≡ true =
        subst (IsHydrated s) same (subst (IsPhase objs s a.obj) at (h.futures f a found).0) in
      elim (Option-cases (lookup u s.object_ids)) [
        | inl absent ↦ absurd (ground (arith, hydrated, absent))
        | inr (id, is) ↦ (
          id,
          is,
          ap (done_object s) found
              ∙ ap (λ p. result_of s p a.obj) at
              ∙ ap (λ v. with_id v (lookup v s.object_ids)) same
              ∙ ap (with_id u) is,
        )
      ]
]

-- Once every load has ended well, `objects` raises nothing; each object that it lists is hydrated, no two of them have
-- the same id, and every object in the table of futures has the id of one of them.
pub objects-IsListed :
    (objs : Objects) (hydrated : Dict Text) (events : List Event)
    → ((f : ℕ) (a : LoadFuture)
        → lookup f (run objs events (new_resolver hydrated)).futures ≡ some a
        → a.phase ≡ finished)
    → (unique : ById) × (objects (run objs events (new_resolver hydrated))
        ≡ ok (map (λ o. o.1) unique))
      × AreUnique unique
      × AreIds (run objs events (new_resolver hydrated)) unique
      × All
          (IsListed (run objs events (new_resolver hydrated)) unique)
          (run objs events (new_resolver hydrated)).local_uuid_to_future
unfolding objects
objects-IsListed objs hydrated events all_finished =
    let s = run objs events (new_resolver hydrated) in
    let tables =
      run-AreTables objs events (new_resolver hydrated) (new_resolver-AreTables objs hydrated) in
    let kept =
      run-IsResolver objs events (new_resolver hydrated) (new_resolver-IsResolver objs hydrated) in
    let done =
      entries_found s.local_uuid_to_future tables.2 (IsDone s)
        (finished-IsDone objs s kept all_finished) in
    let (unique, made, distinct, ids, listed, _) =
      unique_objects-IsListed s s.local_uuid_to_future [] done tt tt in
    (unique, ap (λ r. r >>= λ us. ok (map (λ o. o.1) us)) made, distinct, ids, listed)
