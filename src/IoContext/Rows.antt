-- ===== src/IoContext/Rows.antt =====
-- The arguments of one input of a batch (`_args_and_kwargs` in modal/_runtime/container_io_manager.py).
use Prim.Native.String.{String}
use text.Mathlib.Text.{◌==◌ as str_eq}
use text.Mathlib.TextEquality.{eq_iff}
use modal_client.Prelude.{
  suc, ◌+◌, ◌≤◌, ◌==◌, ◌≡◌, refl, sym, ◌∙◌, ap, subst, ==→eq, true, false, not, ◌&&◌, Bool-cases,
  inl, inr, List, [], ◌∷◌, ◌++◌, append-nil, append_assoc, length, length-append, All, All-append,
  Result, ok, if◌then◌else◌, arith,
}
use modal_client.Prelude.Names.{
  Names, set_name, has_name, IsNames, set_name-IsNames, set_name-new, has_name-before,
}
use modal_client.IoContext.{ContextError}
use modal_client.IoContext.Binding.{is_param, bind_args, bind_kwargs, bind_call}

-- the names of a signature differ
abbrev pub IsDistinct : List String → Type 0
IsDistinct [] = Unit
IsDistinct (name ∷ names) = (is_param name names ≡ false) × IsDistinct names

-- the first names, each with its argument
abbrev pub zip : {V : Type 0} → List String → List V → Names V
zip (name ∷ names) (arg ∷ rest) = (name, arg) ∷ zip names rest
zip _ _ = []

abbrev pub AreParams : {V : Type 0} → List String → Names V → Type 0
AreParams names row = All (λ p. is_param p.0 names ≡ true) row

-- one name less
remove : String → List String → List String
remove k [] = []
remove k (name ∷ names) = if str_eq k name then names else name ∷ remove k names

length-remove :
    (k : String) (names : List String)
    → is_param k names ≡ true
    → suc (length (remove k names)) ≡ length names
unfolding remove
length-remove k [] h = absurd (ground (arith, h))
length-remove k (name ∷ names) h = ground (arith, length-remove k names)

is_param-remove :
    (j k : String) (names : List String)
    → str_eq k j ≡ false
    → is_param j names ≡ true
    → is_param j (remove k names) ≡ true
unfolding remove
is_param-remove j k [] ne h = h
is_param-remove j k (name ∷ names) ne h =
    ground (arith, eq_iff k name, eq_iff j name, eq_iff k j, is_param-remove j k names ne)

pub same_ok : {A : Type 0} (a b : A) (r : Result ContextError A) → r ≡ ok a → r ≡ ok b → a ≡ b
same_ok a b r e f = grind (arith, e, f)

module _ {V : Type 0} where
  remove-AreParams :
      (k : String) (names : List String) (row : Names V)
      → AreParams names row
      → has_name k row ≡ false
      → AreParams (remove k names) row
  remove-AreParams k names [] h absent = tt
  remove-AreParams k names ((j, v) ∷ row) (is, h) absent = (
    is_param-remove j k names (ground (arith, absent)) is,
    remove-AreParams k names row h (ground (arith, absent)),
  )

  -- names that differ are no more than the names that they are among
  length-le :
      (names : List String) (row : Names V)
      → IsNames row
      → AreParams names row
      → length row ≤ length names
  length-le names [] distinct h = omega arith
  length-le names ((k, v) ∷ row) (new, distinct) (is, h) = omega (
    arith,
    length-remove k names is,
    length-le (remove k names) row distinct (remove-AreParams k names row h new),
  )

  -- and all of them, if they are as many
  pub all_names :
      (name : String) (names : List String) (row : Names V)
      → IsNames row
      → AreParams names row
      → length row ≡ length names
      → is_param name names ≡ true
      → has_name name row ≡ true
  all_names name names row distinct h same is = elim (Bool-cases (has_name name row)) [
    | inl has ↦ has
    | inr absent ↦ absurd (
        omega (
          arith,
          same,
          length-remove name names is,
          length-le (remove name names) row distinct (remove-AreParams name names row h absent),
        ))
  ]

  has_name-zip :
      (k : String) (names : List String) (positional : List V)
      → is_param k names ≡ false
      → has_name k (zip names positional) ≡ false
  has_name-zip k [] positional h = refl
  has_name-zip k (name ∷ names) [] h = refl
  has_name-zip k (name ∷ names) (arg ∷ rest) h = ground (arith, has_name-zip k names rest)

  zip-IsNames :
      (names : List String) (positional : List V)
      → IsDistinct names
      → IsNames (zip names positional)
  zip-IsNames [] positional h = tt
  zip-IsNames (name ∷ names) [] h = tt
  zip-IsNames (name ∷ names) (arg ∷ rest) (new, h) =
      (has_name-zip name names rest new, zip-IsNames names rest h)

  -- more names are parameters
  weaken :
      (name : String) (names : List String) (row : Names V)
      → AreParams names row
      → AreParams (name ∷ names) row
  weaken name names [] h = tt
  weaken name names ((k, v) ∷ row) (is, h) = (ground (arith, is), weaken name names row h)

  zip-AreParams :
      (names : List String) (positional : List V) → AreParams names (zip names positional)
  zip-AreParams [] positional = tt
  zip-AreParams (name ∷ names) [] = tt
  zip-AreParams (name ∷ names) (arg ∷ rest) = (
    ground (arith, eq_iff name name),
    weaken name names (zip names rest) (zip-AreParams names rest),
  )

  bind_args-zip :
      (names : List String) (positional : List V) (row : Names V)
      → IsNames (row ++ zip names positional)
      → bind_args names positional row ≡ row ++ zip names positional
  unfolding bind_args
  bind_args-zip [] positional row h = sym (append-nil row)
  bind_args-zip (name ∷ names) [] row h = sym (append-nil row)
  bind_args-zip (name ∷ names) (arg ∷ rest) row h =
      let grown = set_name-new name arg row (has_name-before name arg row (zip names rest) h) in
      let same = append_assoc row ((name, arg) ∷ []) (zip names rest) in
      ap (bind_args names rest) grown
      ∙ bind_args-zip names rest (row ++ (name, arg) ∷ []) (subst IsNames (sym same) h)
      ∙ same

  -- what is bound once the keyword arguments are in
  pub bind_kwargs-ok :
      (param_names : List String) (given row : Names V) (bound : Names V)
      → bind_kwargs param_names given row ≡ ok bound
      → IsNames row
      → AreParams param_names row
      → (bound ≡ row ++ given) × IsNames bound × AreParams param_names bound
  unfolding bind_kwargs
  bind_kwargs-ok param_names [] row bound e h is =
      let same = same_ok row bound (ok row) refl e in
      (sym same ∙ sym (append-nil row), subst IsNames same h, subst (AreParams param_names) same is)
  bind_kwargs-ok param_names ((k, v) ∷ given) row bound e h is =
      elim (Bool-cases (is_param k param_names && not (has_name k row))) [
        | inr stops ↦ absurd (ground (arith, e, stops))
        | inl goes ↦
            let grown = set_name-new k v row (ground (arith, goes)) in
            let (same, distinct_row, are) =
              bind_kwargs-ok param_names given (set_name k v row) bound (ground (arith, e, goes))
                (set_name-IsNames k v row h)
                (subst (AreParams param_names) (sym grown) (
                  All-append (λ p. is_param p.0 param_names ≡ true) row ((k, v) ∷ []) is
                    (ground (arith, goes), tt))) in
            (
              same ∙ ap (λ r. r ++ given) grown ∙ append_assoc row ((k, v) ∷ []) given,
              distinct_row,
              are,
            )
      ]

  length-zip :
      (names : List String) (positional : List V) (given : Names V)
      → length positional + length given ≡ length names
      → length (zip names positional) + length given ≡ length names
  length-zip [] [] given h = h
  length-zip (name ∷ names) [] given h = h
  length-zip [] (arg ∷ rest) given h = absurd (omega (arith, h))
  length-zip (name ∷ names) (arg ∷ rest) given h =
      omega (arith, length-zip names rest given (omega (arith, h)))

  -- A bound row: the positional arguments at the first names, then the keyword arguments, which are all the names.
  pub bind_call-ok :
      (param_names : List String) (positional : List V) (given row : Names V)
      → IsDistinct param_names
      → bind_call param_names (positional, given) ≡ ok row
      → (row ≡ zip param_names positional ++ given)
        × IsNames row
        × AreParams param_names row
        × (length row ≡ length param_names)
  unfolding bind_call
  bind_call-ok param_names positional given row distinct e =
      elim (Bool-cases (length positional + length given == length param_names)) [
        | inr wrong ↦ absurd (ground (arith, e, wrong))
        | inl fits ↦
            let zipped = zip param_names positional in
            let names = zip-IsNames param_names positional distinct in
            let start = bind_args-zip param_names positional [] names in
            let (same, distinct_row, are) =
              bind_kwargs-ok param_names given zipped row
                (sym (ap (bind_kwargs param_names given) start) ∙ ground (arith, e, fits)) names
                (zip-AreParams param_names positional) in
            (
              same,
              distinct_row,
              are,
              ap length same
                  ∙ length-append zipped given
                  ∙ length-zip param_names positional given
                      (==→eq (length positional + length given) (length param_names) fits),
            )
      ]
