-- ===== src/AsyncUtils/OrderedSteps.antt =====
-- What holds between two events of `async_map_ordered` (modal/_utils/async_utils.py).
use modal_client.Prelude.{
  if◌then◌else◌, ◌++◌, ℕ, zero, suc, ◌+◌, ◌≤◌, ◌<◌, ◌≡◌, refl, sym, ◌∙◌, ap, inl, inr, Bool, true,
  false, Option-cases, Option, none, some, List, [], ◌∷◌, map, length, take, drop, arith,
}
use modal_client.Prelude.Dict.{
  lookup, IsDict, lookup-insert, insert-cases, lookup-erase_ne, insert-IsDict, erase-IsDict,
}
use modal_client.AsyncUtils.Ordered.{
  Ordered, OrderedEvent, acquired, pulled, zipped, yields, input_raises, mapped, acquire_permit,
  next_item, zip_next, mapped_to, source_raises, receive_output, yield_next, running_step,
  ordered_step,
}
use modal_client.AsyncUtils.Items.{item_at, drop-item, take-item, erase-old, distinct_keys}

map-snoc :
    {A : Type 0} (ys : List A) (y : A)
    → map (λ z. some z) (ys ++ y ∷ []) ≡ map (λ z. some z) ys ++ some y ∷ []
map-snoc [] y = refl
map-snoc (z ∷ ys) y = ap (λ zs. some z ∷ zs) (map-snoc ys y)

abbrev pub holding : Bool → ℕ
holding true = 1
holding false = 0

-- what is not yet zipped of the input
abbrev pub upcoming : {A : Type 0} → Option A → List A → List A
upcoming none items = items
upcoming (some item) items = item ∷ items

-- The state between two events: the results so far are those of the first items, the buffer holds the
-- results of others that were zipped, and these are as many as permits are taken.
pub record IsOrdered {A B : Type 0} (f : A → Option B) (xs : List A) (size : ℕ) (s : Ordered A B)
    : Type 0 where
  pub input_generator : upcoming s.fetched s.input_generator ≡ drop s.counter xs
  pub yielded : map (λ y. some y) s.yielded ≡ map f (take s.next_idx xs)
  pub mapping :
      (i : ℕ) (x : A)
      → lookup i s.mapping ≡ some x
      → (item_at i xs ≡ some x) × (i < s.counter) × (s.next_idx ≤ i) × (lookup i s.buffer ≡ none)
  pub buffer :
      (i : ℕ) (y : B)
      → lookup i s.buffer ≡ some y
      → (x : A) × (item_at i xs ≡ some x) × (some y ≡ f x) × (i < s.counter)
  pub conserved : s.semaphore + holding s.counting + s.counter ≡ size + s.next_idx
  pub bounds : (s.next_idx ≤ s.counter) × (s.counter ≤ length xs)
  pub mapping_dict : IsDict s.mapping
  pub buffer_dict : IsDict s.buffer

module _ {A B : Type 0} (f : A → Option B) (xs : List A) (size : ℕ) where
  acquire_permit-IsOrdered :
      (held : Bool) (n : ℕ) (s : Ordered A B)
      → s.counting ≡ held
      → s.semaphore ≡ n
      → IsOrdered f xs size s
      → IsOrdered f xs size (acquire_permit held n s)
  acquire_permit-IsOrdered true n s held free h = h
  acquire_permit-IsOrdered false zero s held free h = h
  acquire_permit-IsOrdered false (suc n) s held free h = record {
    input_generator = h.input_generator;
    yielded = h.yielded;
    mapping = h.mapping;
    buffer = h.buffer;
    conserved = ground (arith, h.conserved, held, free);
    bounds = h.bounds;
    mapping_dict = h.mapping_dict;
    buffer_dict = h.buffer_dict;
  }

  unbuffered :
      (s : Ordered A B) → IsOrdered f xs size s → (i : ℕ) → s.counter ≤ i → lookup i s.buffer ≡ none
  unbuffered s h i le = elim (Option-cases (lookup i s.buffer)) [
    | inl absent ↦ absent
    | inr (y, found) ↦
        let (_, _, _, below) = h.buffer i y found in absurd (omega (arith, le, below))
  ]

  next_item-IsOrdered :
      (item : Option A) (items : List A) (s : Ordered A B)
      → s.fetched ≡ item
      → s.input_generator ≡ items
      → IsOrdered f xs size s
      → IsOrdered f xs size (next_item item items s)
  next_item-IsOrdered (some x) items s has from h = h
  next_item-IsOrdered none [] s has from h = h
  next_item-IsOrdered none (x ∷ items) s has from h = record {
    input_generator =
        sym from ∙ ap (λ i. upcoming i s.input_generator) (sym has) ∙ h.input_generator;
    yielded = h.yielded;
    mapping = h.mapping;
    buffer = h.buffer;
    conserved = h.conserved;
    bounds = h.bounds;
    mapping_dict = h.mapping_dict;
    buffer_dict = h.buffer_dict;
  }

  stopped-IsOrdered :
      (s : Ordered A B) → IsOrdered f xs size s → IsOrdered f xs size (record s { stopped = true })
  stopped-IsOrdered s h = record {
    input_generator = h.input_generator;
    yielded = h.yielded;
    mapping = h.mapping;
    buffer = h.buffer;
    conserved = h.conserved;
    bounds = h.bounds;
    mapping_dict = h.mapping_dict;
    buffer_dict = h.buffer_dict;
  }

  source_raises-IsOrdered :
      (output : Option B) (s : Ordered A B)
      → IsOrdered f xs size s
      → IsOrdered f xs size (source_raises output s)
  source_raises-IsOrdered none s h = stopped-IsOrdered s h
  source_raises-IsOrdered (some y) s h = h

  zip_next-IsOrdered :
      (held : Bool) (item : Option A) (s : Ordered A B)
      → s.counting ≡ held
      → s.fetched ≡ item
      → IsOrdered f xs size s
      → IsOrdered f xs size (zip_next held item s)
  zip_next-IsOrdered false item s held has h = h
  zip_next-IsOrdered true none s held has h = h
  zip_next-IsOrdered true (some x) s held has h =
      let (at, later, lt) =
        drop-item s.counter xs x s.input_generator
          (sym h.input_generator ∙ ap (λ i. upcoming i s.input_generator) has) in
      record {
        input_generator = sym later;
        yielded = h.yielded;
        mapping = λ i y e. elim (insert-cases i s.counter x y s.mapping e) [
          | inl (here, same) ↦ (
            ap (λ j. item_at j xs) here ∙ at ∙ ap (λ z. some z) same,
            omega (arith, here),
            omega (arith, here, h.bounds.0),
            unbuffered s h i (omega (arith, here)),
          )
          | inr (other, was) ↦
              let (is, below, le, no_output) = h.mapping i y was in
              (is, omega (arith, below), le, no_output)
        ];
        buffer = λ i y e.
            let (z, is, same, below) = h.buffer i y e in (z, is, same, omega (arith, below));
        conserved = ground (arith, h.conserved, held);
        bounds = omega (arith, h.bounds.0, lt);
        mapping_dict = insert-IsDict s.counter x s.mapping h.mapping_dict;
        buffer_dict = h.buffer_dict;
      }

  mapped_to-IsOrdered :
      (idx : ℕ) (item : A) (output : Option B) (s : Ordered A B)
      → lookup idx s.mapping ≡ some item
      → f item ≡ output
      → IsOrdered f xs size s
      → IsOrdered f xs size (mapped_to idx output s)
  mapped_to-IsOrdered idx item none s found made h = stopped-IsOrdered s h
  mapped_to-IsOrdered idx item (some output) s found made h =
      let (at, below_counter, from_next, absent) = h.mapping idx item found in
      record {
        input_generator = h.input_generator;
        yielded = h.yielded;
        mapping = λ i x e.
            let (other, was) = erase-old i idx x s.mapping h.mapping_dict e in
            let (is, below, le, no_output) = h.mapping i x was in
            (is, below, le, ground (arith, other, no_output, lookup-insert i idx output s.buffer));
        buffer = λ i y e. elim (insert-cases i idx output y s.buffer e) [
          | inl (here, same) ↦ (
            item,
            ap (λ j. item_at j xs) here ∙ at,
            ap (λ z. some z) (sym same) ∙ sym made,
            omega (arith, here, below_counter),
          )
          | inr (other, was) ↦ h.buffer i y was
        ];
        conserved = h.conserved;
        bounds = h.bounds;
        mapping_dict = erase-IsDict idx s.mapping h.mapping_dict;
        buffer_dict = insert-IsDict idx output s.buffer h.buffer_dict;
      }

  receive_output-IsOrdered :
      (idx : ℕ) (item : Option A) (output : Option B) (s : Ordered A B)
      → lookup idx s.mapping ≡ item
      → IsOrdered f xs size s
      → IsOrdered f xs size (receive_output f idx item output s)
  receive_output-IsOrdered idx none output s found h = h
  receive_output-IsOrdered idx (some item) (some y) s found h = h
  receive_output-IsOrdered idx (some item) none s found h =
      mapped_to-IsOrdered idx item (f item) s found refl h

  yield_next-IsOrdered :
      (output : Option B) (s : Ordered A B)
      → lookup s.next_idx s.buffer ≡ output
      → IsOrdered f xs size s
      → IsOrdered f xs size (yield_next output s)
  yield_next-IsOrdered none s found h = h
  yield_next-IsOrdered (some y) s found h =
      let (item, at, same, below_counter) = h.buffer s.next_idx y found in
      record {
        input_generator = h.input_generator;
        yielded =
            map-snoc s.yielded y
            ∙ ap (λ ys. ys ++ some y ∷ []) h.yielded
            ∙ ap (λ z. map f (take s.next_idx xs) ++ z ∷ []) same
            ∙ sym (take-item f s.next_idx xs item at);
        mapping = λ i x e.
            let (is, below, le, no_output) = h.mapping i x e in
            let later = distinct_keys i s.next_idx y s.buffer no_output found in
            (
              is,
              below,
              ground (arith, le, later),
              ground (arith, later, no_output, lookup-erase_ne i s.next_idx s.buffer),
            );
        buffer = λ i z e. h.buffer i z (erase-old i s.next_idx z s.buffer h.buffer_dict e).1;
        conserved = omega (arith, h.conserved);
        bounds = (omega (arith, below_counter), h.bounds.1);
        mapping_dict = h.mapping_dict;
        buffer_dict = erase-IsDict s.next_idx s.buffer h.buffer_dict;
      }

  running_step-IsOrdered :
      (e : OrderedEvent) (s : Ordered A B)
      → IsOrdered f xs size s
      → IsOrdered f xs size (running_step f e s)
  running_step-IsOrdered acquired s h =
      acquire_permit-IsOrdered s.counting s.semaphore s refl refl h
  running_step-IsOrdered pulled s h = next_item-IsOrdered s.fetched s.input_generator s refl refl h
  running_step-IsOrdered zipped s h = zip_next-IsOrdered s.counting s.fetched s refl refl h
  running_step-IsOrdered (mapped idx) s h =
      receive_output-IsOrdered idx (lookup idx s.mapping) (lookup s.next_idx s.buffer) s refl h
  running_step-IsOrdered yields s h = yield_next-IsOrdered (lookup s.next_idx s.buffer) s refl h
  running_step-IsOrdered input_raises s h = source_raises-IsOrdered (lookup s.next_idx s.buffer) s h

  pub step-IsOrdered :
      (e : OrderedEvent) (s : Ordered A B)
      → IsOrdered f xs size s
      → IsOrdered f xs size (ordered_step f e s)
  unfolding ordered_step
  step-IsOrdered e s h =
      elim s.stopped as (λ b. IsOrdered f xs size (if b then s else running_step f e s)) [
        | true ↦ h
        | false ↦ running_step-IsOrdered e s h
      ]
