-- ===== src/Prelude/Dict.antt =====
-- A Python dict with integer keys, as an association list in insertion order.
use Prim.Native.Nat.{ℕ, ◌+◌}
use mathlib.Core.Path.{◌≡◌, refl}
use mathlib.Core.Logic.{◌≢◌, ◌⊎◌, inl, inr}
use mathlib.Core.Bool.{false}
use mathlib.Core.Option.{Option, none, some}
use mathlib.Core.List.{List, [], ◌∷◌}
use native.Mathlib.Omega.{arith}
use modal_client.Prelude.Tests.{◌==◌, if◌then◌else◌, Bool-cases}
use modal_client.Prelude.Lists.{length}

abbrev pub Dict : Type 0 → Type 0
Dict V = List (ℕ × V)

module _ {V : Type 0} where
  -- `d.get(k)`
  abbrev pub lookup : ℕ → Dict V → Option V
  lookup key [] = none
  lookup key ((other, x) ∷ entries) = if key == other then some x else lookup key entries

  -- `d[k] = v`: an old key keeps its place
  abbrev pub insert : ℕ → V → Dict V → Dict V
  insert key x [] = (key, x) ∷ []
  insert key x ((other, w) ∷ entries) =
      if key == other then (key, x) ∷ entries else (other, w) ∷ insert key x entries

  -- `del d[k]` for a key that is there; a missing key, which raises, is the caller's test
  abbrev pub erase : ℕ → Dict V → Dict V
  erase key [] = []
  erase key ((other, w) ∷ entries) =
      if key == other then entries else (other, w) ∷ erase key entries

  -- no key stands twice, which holds of every dict
  abbrev pub IsDict : Dict V → Type 0
  IsDict [] = Unit
  IsDict ((key, x) ∷ entries) = (lookup key entries ≡ none) × IsDict entries

  pub lookup-insert :
      (other key : ℕ) (x : V) (entries : Dict V)
      → lookup other (insert key x entries)
        ≡ (if other == key then some x else lookup other entries)
  lookup-insert other key x [] = ground arith
  lookup-insert other key x (e ∷ entries) = ground (arith, lookup-insert other key x entries)

  pub lookup-erase_ne :
      (other key : ℕ) (entries : Dict V)
      → other ≢ key
      → lookup other (erase key entries) ≡ lookup other entries
  lookup-erase_ne other key [] h = refl
  lookup-erase_ne other key (e ∷ entries) h = ground (arith, lookup-erase_ne other key entries h)

  pub lookup-erase_self :
      (key : ℕ) (entries : Dict V) → IsDict entries → lookup key (erase key entries) ≡ none
  lookup-erase_self key [] h = refl
  lookup-erase_self key (e ∷ entries) h = ground (arith, lookup-erase_self key entries h.1)

  pub insert-IsDict :
      (key : ℕ) (x : V) (entries : Dict V) → IsDict entries → IsDict (insert key x entries)
  insert-IsDict key x [] h = (refl, tt)
  insert-IsDict key x (e ∷ entries) h =
      ground (arith, insert-IsDict key x entries h.1, lookup-insert e.0 key x entries)

  pub erase-IsDict : (key : ℕ) (entries : Dict V) → IsDict entries → IsDict (erase key entries)
  erase-IsDict key [] h = tt
  erase-IsDict key (e ∷ entries) h =
      ground (arith, erase-IsDict key entries h.1, lookup-erase_ne e.0 key entries)

  pub length-insert_new :
      (key : ℕ) (x : V) (entries : Dict V)
      → lookup key entries ≡ none
      → length (insert key x entries) ≡ length entries + 1
  length-insert_new key x [] h = omega arith
  length-insert_new key x (e ∷ entries) h = ground (arith, length-insert_new key x entries)

  pub length-insert_old :
      (key : ℕ) (x : V) (entries : Dict V)
      → lookup key entries ≢ none
      → length (insert key x entries) ≡ length entries
  length-insert_old key x [] h = ground arith
  length-insert_old key x (e ∷ entries) h = ground (arith, length-insert_old key x entries)

  pub length-erase :
      (key : ℕ) (entries : Dict V)
      → lookup key entries ≢ none
      → length (erase key entries) + 1 ≡ length entries
  length-erase key [] h = ground arith
  length-erase key (e ∷ entries) h = ground (arith, length-erase key entries)

  -- an entry of `insert` is the new one or an old one
  pub insert-cases :
      (other key : ℕ) (x y : V) (entries : Dict V)
      → lookup other (insert key x entries) ≡ some y
      → ((other ≡ key) × (x ≡ y)) ⊎ ((other == key) ≡ false × (lookup other entries ≡ some y))
  insert-cases other key x y entries e = elim (Bool-cases (other == key)) [
    | inl same ↦
        inl (ground (arith, same), grind (arith, e, lookup-insert other key x entries, same))
    | inr new ↦ inr (new, ground (arith, e, new, lookup-insert other key x entries))
  ]
