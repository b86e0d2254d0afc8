-- ===== src/Resolver/Updates.antt =====
-- The updates that the steps of `Resolver` (modal/_resolver.py) are made of keep what holds between them.
use modal_client.Prelude.{
  ℕ, ◌≡◌, sym, ◌∙◌, ap, subst, ◌⊎◌, inl, inr, Bool, Option, none, some, arith,
}
use modal_client.Prelude.Dict.{Dict, lookup, insert, lookup-insert, insert-cases}
use modal_client.FilePatterns.Text.{Text}
use modal_client.Resolver.{
  Objects, LoadPhase, LoadFuture, LoadCall, Awaiting, begun, Resolver, await_on, new_call,
}
use modal_client.Resolver.Load.{new_future, cache_key}
use modal_client.Resolver.Kept.{
  future_obj, call_obj, IsPhase, IsFuture, IsAwaiting, IsResolver, Grows, IsFuture-grows,
  IsAwaiting-grows,
}

abbrev fresh_future : ℕ → Option Text → Bool → LoadPhase → LoadFuture
fresh_future u existing is_loader p = record {
  obj = u;
  existing_object_id = existing;
  is_loader = is_loader;
  phase = p;
  load_calls = 0;
}

-- what holds of the values of a dict holds after an insertion
insert-all :
    {V : Type 0} (P : V → Type 0) (key : ℕ) (x : V) (entries : Dict V)
    → ((k : ℕ) (y : V) → lookup k entries ≡ some y → P y)
    → P x
    → (k : ℕ) (y : V) → lookup k (insert key x entries) ≡ some y
    → P y
insert-all P key x entries old new k y e = elim (insert-cases k key x y entries e) [
  | inl (at, is) ↦ subst P is new
  | inr (other, was) ↦ old k y was
]

-- a call that goes on, or a new one
pub call-Grows :
    (s : Resolver) (c : ℕ) (b : LoadCall)
    → (lookup c s.calls ≡ none) ⊎ (call_obj c s ≡ some b.obj)
    → Grows s (record s { calls = insert c b s.calls })
call-Grows s c b before = ((λ u h. h), (λ f u e. e), λ d u e. keeps d u e before)
  where
    keeps :
        (d u : ℕ)
        → call_obj d s ≡ some u
        → (lookup c s.calls ≡ none) ⊎ (call_obj c s ≡ some b.obj)
        → call_obj d (record s { calls = insert c b s.calls }) ≡ some u
    keeps d u e (inl new) = ground (arith, e, new, lookup-insert d c b s.calls)
    keeps d u e (inr old) = ground (arith, e, old, lookup-insert d c b s.calls)

pub future-Grows :
    (s : Resolver) (f : ℕ) (b : LoadFuture)
    → (lookup f s.futures ≡ none) ⊎ (future_obj f s ≡ some b.obj)
    → Grows s (record s { futures = insert f b s.futures })
future-Grows s f b before = ((λ u h. h), (λ g u e. keeps g u e before), (λ c u e. e))
  where
    keeps :
        (g u : ℕ)
        → future_obj g s ≡ some u
        → (lookup f s.futures ≡ none) ⊎ (future_obj f s ≡ some b.obj)
        → future_obj g (record s { futures = insert f b s.futures }) ≡ some u
    keeps g u e (inl new) = ground (arith, e, new, lookup-insert g f b s.futures)
    keeps g u e (inr old) = ground (arith, e, old, lookup-insert g f b s.futures)

pub ids-Grows :
    (s : Resolver) (u : ℕ) (id : Text)
    → Grows s (record s { object_ids = insert u id s.object_ids })
ids-Grows s u id =
    ((λ v h. ground (arith, h, lookup-insert v u id s.object_ids)), (λ f v e. e), (λ c v e. e))

module _ (objects : Objects) (s : Resolver) (h : IsResolver objects s) where
  pub await_on-IsResolver :
      (c : ℕ) (call : LoadCall) (a : Awaiting)
      → lookup c s.calls ≡ some call
      → IsAwaiting s call.obj a
      → IsResolver objects (await_on c call a s)
  await_on-IsResolver c call a found is =
      let b = record call { awaiting = a } in
      let t = await_on c call a s in
      let grows = call-Grows s c b (inr (ground (arith, found))) in
      record {
        tables = h.tables;
        futures = λ f future e. IsFuture-grows s t grows objects future (h.futures f future e);
        calls = λ d other e.
            IsAwaiting-grows s t grows other.obj other.awaiting
              (insert-all (λ y. IsAwaiting s y.obj y.awaiting) c b s.calls h.calls is d other e);
        fresh_futures = h.fresh_futures;
        fresh_calls =
            λ d le. ground (arith, found, h.fresh_calls d le, lookup-insert d c b s.calls);
      }

  pub new_call-IsResolver :
      (u : ℕ) (existing : Option Text)
      → IsResolver objects (new_call u existing s)
        × (call_obj s.next_call (new_call u existing s) ≡ some u)
  new_call-IsResolver u existing =
      let t = new_call u existing s in
      let here : call_obj s.next_call t ≡ some u = ground (
        arith,
        lookup-insert s.next_call s.next_call
            (record { obj = u; existing_object_id = existing; awaiting = begun }) s.calls,
      ) in
      let grows =
        call-Grows s s.next_call
          (record { obj = u; existing_object_id = existing; awaiting = begun })
          (inl (h.fresh_calls s.next_call (omega arith))) in
      (
        record {
          tables = h.tables;
          futures = λ f future e. IsFuture-grows s t grows objects future (h.futures f future e);
          calls = λ d other e. IsAwaiting-grows s t grows other.obj other.awaiting (
              insert-all (λ y. IsAwaiting s y.obj y.awaiting) s.next_call _ s.calls h.calls tt d
                other e);
          fresh_futures = h.fresh_futures;
          fresh_calls = λ d le. ground (
            arith,
            h.fresh_calls d,
            lookup-insert d s.next_call
                (record { obj = u; existing_object_id = existing; awaiting = begun }) s.calls,
          );
        },
        here,
      )

  -- a future goes on
  pub update-IsResolver :
      (f : ℕ) (a b : LoadFuture)
      → lookup f s.futures ≡ some a
      → b.obj ≡ a.obj
      → IsFuture objects s b
      → IsResolver objects (record s { futures = insert f b s.futures })
  update-IsResolver f a b found same is =
      let t = record s { futures = insert f b s.futures } in
      let grows = future-Grows s f b (inr (ground (arith, found, same))) in
      record {
        tables = λ u g e. grows.1 g u (h.tables u g e);
        futures = λ g future e.
            IsFuture-grows s t grows objects future
              (insert-all (IsFuture objects s) f b s.futures h.futures is g future e);
        calls = λ c call e. IsAwaiting-grows s t grows call.obj call.awaiting (h.calls c call e);
        fresh_futures =
            λ g le. ground (arith, found, h.fresh_futures g le, lookup-insert g f b s.futures);
        fresh_calls = h.fresh_calls;
      }

  pub new_future-IsResolver :
      (u : ℕ) (existing : Option Text) (is_loader : Bool) (p : LoadPhase)
      → IsPhase objects s u p
      → IsResolver objects (new_future u existing is_loader p s)
        × (future_obj s.next_future (new_future u existing is_loader p s) ≡ some u)
  new_future-IsResolver u existing is_loader p is =
      let b = fresh_future u existing is_loader p in
      let t = new_future u existing is_loader p s in
      let grows =
        future-Grows s s.next_future b (inl (h.fresh_futures s.next_future (omega arith))) in
      let here : future_obj s.next_future (new_future u existing is_loader p s) ≡ some u =
        ground (arith, lookup-insert s.next_future s.next_future b s.futures) in
      (
        record {
          tables = λ v g e. elim (insert-cases v u s.next_future g s.local_uuid_to_future e) [
            | inl (at, is_here) ↦
                ap (λ i. future_obj i t) (sym is_here) ∙ here ∙ ap (λ i. some i) (sym at)
            | inr (other, was) ↦ grows.1 g v (h.tables v g was)
          ];
          futures = λ g future e. IsFuture-grows s t grows objects future (
              insert-all (IsFuture objects s) s.next_future b s.futures h.futures
                (is, λ called. absurd (omega (arith, called))) g future e);
          calls = λ c call e. IsAwaiting-grows s t grows call.obj call.awaiting (h.calls c call e);
          fresh_futures =
              λ g le. ground (arith, h.fresh_futures g, lookup-insert g s.next_future b s.futures);
          fresh_calls = h.fresh_calls;
        },
        here,
      )

  -- an object is hydrated
  pub ids-IsResolver :
      (u : ℕ) (id : Text) → IsResolver objects (record s { object_ids = insert u id s.object_ids })
  ids-IsResolver u id =
      let t = record s { object_ids = insert u id s.object_ids } in
      let grows = ids-Grows s u id in
      record {
        tables = h.tables;
        futures = λ g future e. IsFuture-grows s t grows objects future (h.futures g future e);
        calls = λ c call e. IsAwaiting-grows s t grows call.obj call.awaiting (h.calls c call e);
        fresh_futures = h.fresh_futures;
        fresh_calls = h.fresh_calls;
      }

  pub cache_key-IsResolver : (key : Option ℕ) (f : ℕ) → IsResolver objects (cache_key key f s)
  cache_key-IsResolver none f = h
  cache_key-IsResolver (some key) f =
      let t = cache_key (some key) f s in
      let grows : Grows s t = ((λ u is. is), (λ g u e. e), (λ c u e. e)) in
      record {
        tables = h.tables;
        futures = λ g future e. IsFuture-grows s t grows objects future (h.futures g future e);
        calls = λ c call e. IsAwaiting-grows s t grows call.obj call.awaiting (h.calls c call e);
        fresh_futures = h.fresh_futures;
        fresh_calls = h.fresh_calls;
      }
