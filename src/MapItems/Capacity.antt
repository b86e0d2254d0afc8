-- ===== src/MapItems/Capacity.antt =====
-- The slots of a map call (`_MapItemsManager` in modal/parallel_map.py): every context holds one.
use modal_client.Prelude.{
  ℕ, ◌+◌, ◌<◌, ◌≡◌, ◌≢◌, false, Bool-cases, Option-cases, inl, inr, none, some, List, [], ◌∷◌, ltb,
  length, All, if◌then◌else◌, arith, lt→ltb, ltb→lt, Bool, map, ap,
}
use modal_client.Prelude.Dict.{
  Dict, lookup, insert, IsDict, lookup-insert, insert-IsDict, erase-IsDict, length-insert_new,
  length-insert_old, length-erase,
}
use text.Mathlib.Text.{◌==◌}
use modal_client.Float.{Floats}
use modal_client.MapItems.Data.{PutInputsItem, StartOrContinueItem}
use modal_client.MapItems.Context.{Context}
use modal_client.MapItems.Manager.{
  MapItemsManager, set_context, add_context, add_items, add_items_inputplane, remove_item,
}

-- None of the keys is there, and none comes twice.
abbrev pub AreNew : {V : Type 0} → List ℕ → Dict V → Type 0
AreNew [] d = Unit
AreNew (i ∷ is) d = (lookup i d ≡ none) × All (λ j. j ≢ i) is × AreNew is d

AreNew-insert_new :
    {V : Type 0} (k : ℕ) (v : V) (is : List ℕ) (d : Dict V)
    → All (λ j. j ≢ k) is
    → AreNew is d
    → AreNew is (insert k v d)
AreNew-insert_new k v [] d h n = tt
AreNew-insert_new k v (i ∷ is) d h n =
    (ground (arith, lookup-insert i k v d), n.1, AreNew-insert_new k v is d h.1 n.2)

AreNew-insert_old :
    {V : Type 0} (k : ℕ) (v w : V) (is : List ℕ) (d : Dict V)
    → lookup k d ≡ some w
    → AreNew is d
    → AreNew is (insert k v d)
AreNew-insert_old k v w [] d h n = tt
AreNew-insert_old k v w (i ∷ is) d h n = (
  ground (arith, lookup-insert i k v d, ap (λ j. lookup j d)),
  n.1,
  AreNew-insert_old k v w is d h n.2,
)

module _ (f : Floats) (I : Type 0) where
  open f use {R}

  abbrev Manager : Type 0
  Manager = MapItemsManager f I

  -- Each context holds a slot, and every slot is free or held.
  pub record IsValid (m : Manager) : Type 0 where
    pub keys : IsDict m.item_context
    pub slots : m.inputs_outstanding.value + length m.item_context ≡ m.inputs_outstanding.bound

  pub set_context-IsValid :
      (idx : ℕ) (c c' : Context f I) (m : Manager)
      → lookup idx m.item_context ≡ some c
      → IsValid m
      → IsValid (set_context f I idx c' m)
  set_context-IsValid idx c c' m here v = record {
    keys = insert-IsDict idx c' m.item_context v.keys;
    slots = rw (length-insert_old idx c' m.item_context (λ gone. cc)) v.slots;
  }

  pub add_context-IsValid :
      (idx : ℕ) (x : I) (b : Bool) (m : Manager)
      → lookup idx m.item_context ≡ none
      → 0 < m.inputs_outstanding.value
      → IsValid m
      → IsValid (add_context f I idx x b m)
  add_context-IsValid idx x b m new free v = record {
    keys = insert-IsDict idx _ m.item_context v.keys;
    slots = rw (length-insert_new idx _ m.item_context new) (omega (arith, v.slots));
  }

  pub remove_item-IsValid : (idx : ℕ) (m : Manager) → IsValid m → IsValid (remove_item f I idx m).1
  unfolding remove_item
  remove_item-IsValid idx m v = elim (Option-cases (lookup idx m.item_context)) [
    | inl gone ↦ rw (gone, remove_item) v
    | inr (c, here) ↦
        rw (here, remove_item)
          (let fewer = length-erase idx m.item_context (λ gone. cc) in
            rw
              (lt→ltb m.inputs_outstanding.value m.inputs_outstanding.bound
                (omega (arith, v.slots)))
              (record {
                keys = erase-IsDict idx m.item_context v.keys;
                slots = omega (arith, v.slots);
              }))
  ]

  -- the keys of the fresh inputs
  abbrev pub input_idxs : List (PutInputsItem I) → List ℕ
  input_idxs = map (λ (item : PutInputsItem I). item.idx)

  abbrev pub fresh_idxs : List (StartOrContinueItem I) → List ℕ
  fresh_idxs [] = []
  fresh_idxs (item ∷ items) =
      if item.attempt_token == "" then item.put_item.idx ∷ fresh_idxs items else fresh_idxs items

  pub add_items-IsValid :
      (items : List (PutInputsItem I)) (m : Manager)
      → AreNew (input_idxs items) m.item_context
      → IsValid m
      → IsValid (add_items f I items m).1
  unfolding add_items
  add_items-IsValid [] m new v = v
  add_items-IsValid (item ∷ items) m new v = elim (Bool-cases (ltb 0 m.inputs_outstanding.value)) [
    | inr full ↦ rw (full, add_items) v
    | inl free ↦
        rw (free, add_items)
          (add_items-IsValid items _
            (AreNew-insert_new item.idx _ (input_idxs items) m.item_context new.1 new.2)
            (add_context-IsValid item.idx item.input false m new.0 (ltb→lt 0 _ free) v))
  ]

  pub add_items_inputplane-IsValid :
      (items : List (StartOrContinueItem I)) (m : Manager)
      → AreNew (fresh_idxs items) m.item_context
      → IsValid m
      → IsValid (add_items_inputplane f I items m).1
  unfolding add_items_inputplane
  add_items_inputplane-IsValid [] m new v = v
  add_items_inputplane-IsValid (item ∷ items) m new v =
      elim (Bool-cases (item.attempt_token == "")) [
        | inr again ↦ elim (Option-cases (lookup item.put_item.idx m.item_context)) [
          | inl gone ↦ rw (again, gone, add_items_inputplane) v
          | inr (c, here) ↦
              rw (again, here, add_items_inputplane)
                (add_items_inputplane-IsValid items _
                  (AreNew-insert_old item.put_item.idx _ c _ m.item_context here (rw again at new))
                  (set_context-IsValid item.put_item.idx c _ m here v))
        ]
        | inl first ↦ elim (Bool-cases (ltb 0 m.inputs_outstanding.value)) [
          | inr full ↦ rw (first, full, add_items_inputplane) v
          | inl free ↦
              let new' : AreNew (item.put_item.idx ∷ fresh_idxs items) m.item_context =
                rw first at new in
              rw (first, free, add_items_inputplane)
                (add_items_inputplane-IsValid items _
                  (AreNew-insert_new item.put_item.idx _ (fresh_idxs items) m.item_context new'.1
                    new'.2)
                  (add_context-IsValid item.put_item.idx item.put_item.input
                    m.is_input_plane_instance m new'.0 (ltb→lt 0 _ free) v))
        ]
      ]
