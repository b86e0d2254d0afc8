-- ===== src/Prelude/Names.antt =====
-- A Python dict whose keys are texts, as an association list in the order of insertion.
use Prim.Native.String.{String}
use text.Mathlib.Text.{◌==◌ as str_eq}
use text.Mathlib.TextEquality.{eq_iff}
use mathlib.Core.Path.{◌≡◌, refl}
use mathlib.Core.Bool.{Bool, false, ◌||◌}
use mathlib.Core.Option.{Option, none, some}
use mathlib.Core.List.{List, [], ◌∷◌, ◌++◌}
use native.Mathlib.Omega.{arith}
use modal_client.Prelude.Tests.{if◌then◌else◌}

abbrev pub Names : Type 0 → Type 0
Names V = List (String × V)

module _ {V : Type 0} where
  -- `d.get(k)`
  abbrev pub get_name : String → Names V → Option V
  get_name k [] = none
  get_name k ((j, v) ∷ d) = if str_eq k j then some v else get_name k d

  -- `d[k] = v`
  abbrev pub set_name : String → V → Names V → Names V
  set_name k v [] = (k, v) ∷ []
  set_name k v ((j, w) ∷ d) = if str_eq k j then (k, v) ∷ d else (j, w) ∷ set_name k v d

  abbrev pub has_name : String → Names V → Bool
  has_name k [] = false
  has_name k ((j, v) ∷ d) = str_eq k j || has_name k d

  -- no key stands twice
  abbrev pub IsNames : Names V → Type 0
  IsNames [] = Unit
  IsNames ((k, v) ∷ d) = (has_name k d ≡ false) × IsNames d

  pub get_name-set_name :
      (k j : String) (v : V) (d : Names V)
      → get_name j (set_name k v d) ≡ (if str_eq j k then some v else get_name j d)
  get_name-set_name k j v [] = refl
  get_name-set_name k j v ((i, w) ∷ d) =
      ground (arith, eq_iff k i, eq_iff j k, eq_iff j i, get_name-set_name k j v d)

  pub has_name-set_name :
      (k j : String) (v : V) (d : Names V)
      → has_name j (set_name k v d) ≡ (str_eq j k || has_name j d)
  has_name-set_name k j v [] = refl
  has_name-set_name k j v ((i, w) ∷ d) =
      ground (arith, eq_iff k i, eq_iff j k, eq_iff j i, has_name-set_name k j v d)

  pub set_name-IsNames : (k : String) (v : V) (d : Names V) → IsNames d → IsNames (set_name k v d)
  set_name-IsNames k v [] h = (refl, tt)
  set_name-IsNames k v ((i, w) ∷ d) h =
      ground (arith, eq_iff k i, eq_iff i k, set_name-IsNames k v d h.1, has_name-set_name k i v d)

-- a new name goes to the end
pub set_name-new :
    {V : Type 0} (k : String) (v : V) (d : Names V)
    → has_name k d ≡ false
    → set_name k v d ≡ d ++ (k, v) ∷ []
set_name-new k v [] h = refl
set_name-new k v ((j, w) ∷ d) h = ground (arith, set_name-new k v d)

pub has_name-append :
    {V : Type 0} (k : String) (d e : Names V) → has_name k (d ++ e) ≡ (has_name k d || has_name k e)
has_name-append k [] e = refl
has_name-append k ((j, w) ∷ d) e = ground (arith, has_name-append k d e)

pub has_name-before :
    {V : Type 0} (k : String) (v : V) (d r : Names V)
    → IsNames (d ++ (k, v) ∷ r)
    → has_name k d ≡ false
has_name-before k v [] r h = refl
has_name-before k v ((j, w) ∷ d) r (new, h) =
    ground
      (arith, eq_iff j k, eq_iff k j, has_name-append j d ((k, v) ∷ r), has_name-before k v d r h)
