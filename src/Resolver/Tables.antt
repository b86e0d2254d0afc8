-- ===== src/Resolver/Tables.antt =====
-- The two tables of `Resolver` (modal/_resolver.py) and the futures that stand in them.
use modal_client.Prelude.{ℕ, ◌+◌, ◌≤◌, ◌≡◌, sym, ◌∙◌, ap, subst, inl, inr, true, none, some, arith}
use modal_client.Prelude.Dict.{
  Dict, lookup, insert, lookup-insert, insert-cases, IsDict, insert-IsDict,
}
use modal_client.Resolver.{Objects, LoadPhase, created, gathering, LoadFuture}

-- `_load` is called after the dependencies
abbrev pub calls_bound : LoadPhase → ℕ
calls_bound created = 0
calls_bound (gathering cs) = 0
calls_bound _ = 1

-- what a future says of the tables
abbrev IsEntry : Objects → Dict ℕ → Dict ℕ → ℕ → LoadFuture → Type 0
IsEntry objects local cache f a =
    (lookup a.obj local ≡ some f)
    × (a.is_loader ≡ true
        → (key : ℕ) → objects.deduplication_key a.obj ≡ some key
        → lookup key cache ≡ some f)
    × (a.load_calls ≤ calls_bound a.phase)

-- futures are numbered in order, each is an entry, and no object stands twice in the table
abbrev pub AreEntries : Objects → Dict ℕ → Dict ℕ → Dict LoadFuture → ℕ → Type 0
AreEntries objects local cache futures next =
    ((f : ℕ) → next ≤ f → lookup f futures ≡ none)
    × ((f : ℕ) (a : LoadFuture) → lookup f futures ≡ some a → IsEntry objects local cache f a)
    × IsDict local

module _ (objects : Objects) (local cache : Dict ℕ) (futures : Dict LoadFuture) (next : ℕ)
    (h : AreEntries objects local cache futures next) where
  -- a future goes on
  pub update-AreEntries :
      (f : ℕ) (a b : LoadFuture)
      → lookup f futures ≡ some a
      → b.obj ≡ a.obj
      → b.is_loader ≡ a.is_loader
      → b.load_calls ≤ calls_bound b.phase
      → AreEntries objects local cache (insert f b futures) next
  update-AreEntries f a b found same kind bounded = (fresh, entry, h.2)
    where
      moved : (g : ℕ) → g ≡ f → IsEntry objects local cache g b
      moved g at =
          let (here, key, _) = h.1 f a found in
          (
            ap (λ u. lookup u local) same ∙ here ∙ ap (λ i. some i) (sym at),
            (λ is k e.
                key (sym kind ∙ is) k (ap objects.deduplication_key (sym same) ∙ e)
                ∙ ap (λ i. some i) (sym at)),
            bounded,
          )

      fresh : (g : ℕ) → next ≤ g → lookup g (insert f b futures) ≡ none
      fresh g le = ground (arith, lookup-insert g f b futures, h.0 g le, found)

      entry :
          (g : ℕ) (c : LoadFuture)
          → lookup g (insert f b futures) ≡ some c
          → IsEntry objects local cache g c
      entry g c e = elim (insert-cases g f b c futures e) [
        | inl (at, is) ↦ subst (IsEntry objects local cache g) is (moved g at)
        | inr (other, old) ↦ h.1 g c old
      ]

  -- a new future
  pub new-AreEntries :
      (b : LoadFuture) (later : Dict ℕ)
      → lookup b.obj local ≡ none
      → b.load_calls ≡ 0
      → ((key f : ℕ) → lookup key cache ≡ some f → lookup key later ≡ some f)
      → (b.is_loader ≡ true
          → (key : ℕ) → objects.deduplication_key b.obj ≡ some key
          → lookup key later ≡ some next)
      → AreEntries objects (insert b.obj next local) later (insert next b futures) (next + 1)
  new-AreEntries b later absent uncalled keeps points =
      (fresh, entry, insert-IsDict b.obj next local h.2)
    where
      fresh : (g : ℕ) → next + 1 ≤ g → lookup g (insert next b futures) ≡ none
      fresh g le = ground (arith, lookup-insert g next b futures, h.0 g)

      entry :
          (g : ℕ) (c : LoadFuture)
          → lookup g (insert next b futures) ≡ some c
          → IsEntry objects (insert b.obj next local) later g c
      entry g c e = elim (insert-cases g next b c futures e) [
        | inl (at, is) ↦ subst (IsEntry objects (insert b.obj next local) later g) is (
          ground (arith, lookup-insert b.obj b.obj next local, at),
          (λ kind k key. points kind k key ∙ ap (λ i. some i) (sym at)),
          omega (arith, uncalled),
        )
        | inr (other, old) ↦
            let (here, key, bounded) = h.1 g c old in
            (
              ground (arith, lookup-insert c.obj b.obj next local, here, absent),
              (λ kind k e. keeps k g (key kind k e)),
              bounded,
            )
      ]
