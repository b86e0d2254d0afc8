-- ===== src/IoContext/Columns.antt =====
-- The lists of a batch, one for each parameter (`_args_and_kwargs` in modal/_runtime/container_io_manager.py).
use Prim.Native.String.{String}
use text.Mathlib.Text.{◌==◌ as str_eq}
use text.Mathlib.TextEquality.{eq_iff}
use modal_client.Prelude.{
  ◌≡◌, refl, sym, ◌∙◌, ap, subst, true, Bool-cases, inl, inr, some, List, [], ◌∷◌, ◌++◌, map, All,
  ok, ◌>>=◌, bind-ok, arith,
}
use modal_client.Prelude.Names.{Names, get_name, has_name}
use modal_client.IoContext.Binding.{
  is_param, BatchCall, bind_call, bind_calls, column, columns, batched_kwargs,
}
use modal_client.IoContext.Rows.{same_ok, IsDistinct, zip, bind_call-ok, all_names}

module _ {V : Type 0} where
  -- every name is bound
  abbrev IsFull : List String → Names V → Type 0
  IsFull names row = (name : String) → is_param name names ≡ true → has_name name row ≡ true

  get_name-has_name :
      (name : String) (row : Names V)
      → has_name name row ≡ true
      → (v : V) × (get_name name row ≡ some v)
  get_name-has_name name [] h = absurd (ground (arith, h))
  get_name-has_name name ((k, v) ∷ row) h = elim (Bool-cases (str_eq name k)) [
    | inl same ↦ (v, ground (arith, same))
    | inr other ↦
        let (w, e) = get_name-has_name name row (ground (arith, h, other)) in
        (w, ground (arith, e, other))
  ]

  column-ok :
      (name : String) (rows : List (Names V))
      → All (λ row. has_name name row ≡ true) rows
      → (vs : List V) × (column name rows ≡ ok vs) × (map some vs ≡ map (get_name name) rows)
  unfolding column
  column-ok name [] h = ([], refl, refl)
  column-ok name (row ∷ rows) (has, h) =
      let (v, e) = get_name-has_name name row has in
      let (vs, f, g) = column-ok name rows h in (v ∷ vs, grind (arith, e, f), grind (arith, e, g))

  row_names :
      (name : String) (names : List String) (rows : List (Names V))
      → All (IsFull (name ∷ names)) rows
      → All (λ row. has_name name row ≡ true) rows × All (IsFull names) rows
  row_names name names [] h = (tt, tt)
  row_names name names (row ∷ rows) (full, h) =
      let (first, others) = row_names name names rows h in
      (
        (full name (ground (arith, eq_iff name name)), first),
        ((λ other is. full other (ground (arith, is))), others),
      )

  columns-ok :
      (names : List String) (rows : List (Names V))
      → All (IsFull names) rows
      → (cols : Names (List V)) × (columns names rows ≡ ok cols)
        × (map (λ p. p.0) cols ≡ names)
        × All (λ col. map some col.1 ≡ map (get_name col.0) rows) cols
  unfolding columns
  columns-ok [] rows h = ([], refl, refl, tt)
  columns-ok (name ∷ names) rows h =
      let (first, others) = row_names name names rows h in
      let (vs, e, given) = column-ok name rows first in
      let (cols, f, same, rest) = columns-ok names rows others in
      ((name, vs) ∷ cols, grind (arith, e, f), ap (λ ns. name ∷ ns) same, (given, rest))

  bind_calls-ok :
      (param_names : List String) (calls : List (BatchCall V)) (rows : List (Names V))
      → IsDistinct param_names
      → bind_calls param_names calls ≡ ok rows
      → (rows ≡ map (λ c. zip param_names c.0 ++ c.1) calls) × All (IsFull param_names) rows
  unfolding bind_calls
  bind_calls-ok param_names [] rows distinct e =
      let same = same_ok [] rows (ok []) refl e in
      (sym same, subst (All (IsFull param_names)) same tt)
  bind_calls-ok param_names (c ∷ calls) rows distinct e =
      let (row, made, after) = bind-ok (bind_call param_names c) _ rows e in
      let (others, rest, all) = bind-ok (bind_calls param_names calls) _ rows after in
      let same = same_ok (row ∷ others) rows (ok (row ∷ others)) refl all in
      let (bound, unique, are, long) = bind_call-ok param_names c.0 c.1 row distinct made in
      let (others_bound, full) = bind_calls-ok param_names calls others distinct rest in
      (
        sym same ∙ grind (arith, bound, others_bound),
        subst (All (IsFull param_names)) same
            ((λ name. all_names name param_names row unique are long), full),
      )

-- When every input of a batch binds (each has as many arguments as the function has parameters, and no keyword
-- is unknown or given twice) and the parameters' names differ, no lookup fails: the function is called with one list for each
-- parameter, in the order of the parameters, and the i-th value of a parameter's list is what the i-th input gives for it,
-- its positional arguments standing for the first parameters and its keyword arguments for the others.
pub batched_kwargs-columns :
    {V : Type 0} (param_names : List String) (calls : List (BatchCall V)) (rows : List (Names V))
    → IsDistinct param_names
    → bind_calls param_names calls ≡ ok rows
    → (cols : Names (List V)) × (batched_kwargs param_names calls ≡ ok cols)
      × (map (λ p. p.0) cols ≡ param_names)
      × All
          (λ col.
            map some col.1 ≡ map (get_name col.0) (map (λ c. zip param_names c.0 ++ c.1) calls))
          cols
unfolding batched_kwargs
batched_kwargs-columns param_names calls rows distinct e =
    let (bound, full) = bind_calls-ok param_names calls rows distinct e in
    let (cols, made, names, values) = columns-ok param_names rows full in
    (
      cols,
      ap (λ r. r >>= columns param_names) e ∙ made,
      names,
      subst (λ bs. All (λ col. map some col.1 ≡ map (get_name col.0) bs) cols) bound values,
    )
