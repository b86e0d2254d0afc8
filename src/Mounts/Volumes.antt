-- ===== src/Mounts/Volumes.antt =====
-- No volume is mounted twice: the dictionary of `validate_volumes` (modal/_utils/mount_utils.py).
use modal_client.Prelude.{
  ℕ, ◌<◌, ◌≡◌, refl, ◌∙◌, ap, ltb, ◌==◌, ==→eq, Bool, true, false, not, ◌&&◌, ◌||◌, Bool-cases, inl,
  inr, Option, none, some, List, [], ◌∷◌, ◌++◌, length, length-append, All, Result, ok, err,
  if◌then◌else◌, arith,
}
use modal_client.FilePatterns.Text.{Text}
use modal_client.Mounts.{
  Mountable, volume, cloud_bucket_mount, other_object, as_posix, VolumePaths, append_path, paths_of,
  check_single,
}

abbrev pub value {ℓ κ} : {E : Type ℓ} {A : Type κ} → Result E A → Option A
value (ok a) = some a
value (err e) = none

abbrev pub named : {V : Type 0} → List (Text × V) → List (Text × V)
named [] = []
named ((path, vol) ∷ rest) = (as_posix path, vol) ∷ named rest

abbrev pub is_usable : Mountable → Bool
is_usable other_object = false
is_usable _ = true

abbrev pub all_usable : List (Text × Mountable) → Bool
all_usable [] = true
all_usable ((_, m) ∷ rest) = is_usable m && all_usable rest

abbrev pub is_volume : ℕ → Mountable → Bool
is_volume n (volume m) = m == n
is_volume n _ = false

abbrev pub mounts : ℕ → List (Text × Mountable) → Bool
mounts n [] = false
mounts n ((_, m) ∷ rest) = is_volume n m || mounts n rest

abbrev pub is_repeated : Mountable → List (Text × Mountable) → Bool
is_repeated (volume n) rest = mounts n rest
is_repeated _ rest = false

-- no volume is mounted twice; a bucket may be
abbrev pub distinct : List (Text × Mountable) → Bool
distinct [] = true
distinct ((_, m) ∷ rest) = not (is_repeated m rest) && distinct rest

-- the dictionary has the volume
abbrev has : ℕ → VolumePaths → Bool
has n [] = false
has n ((m, _) ∷ rest) = (n == m) || has n rest

abbrev pub single : VolumePaths → Bool
single [] = true
single ((_, paths) ∷ rest) = not (ltb 1 (length paths)) && single rest

abbrev pub fresh : List (Text × Mountable) → VolumePaths → Bool
fresh [] d = true
fresh ((_, volume n) ∷ rest) d = not (has n d) && fresh rest d
fresh ((_, _) ∷ rest) d = fresh rest d

abbrev pub collected : List (Text × Mountable) → VolumePaths → VolumePaths
collected [] d = d
collected ((path, volume n) ∷ rest) d = collected rest (append_path n path d)
collected ((path, _) ∷ rest) d = collected rest d

pub paths_of-value :
    (items : List (Text × Mountable)) (d : VolumePaths)
    → value (paths_of items d) ≡ (if all_usable items then some (collected items d) else none)
unfolding paths_of
paths_of-value [] d = refl
paths_of-value ((path, other_object) ∷ rest) d = refl
paths_of-value ((path, cloud_bucket_mount) ∷ rest) d = paths_of-value rest d
paths_of-value ((path, volume n) ∷ rest) d = paths_of-value rest (append_path n path d)

pub check_single-value :
    (d : VolumePaths) → value (check_single d) ≡ (if single d then some tt else none)
unfolding check_single
check_single-value [] = refl
check_single-value ((n, paths) ∷ rest) = elim (Bool-cases (ltb 1 (length paths))) [
  | inl more ↦ rw more refl
  | inr one ↦ rw one (check_single-value rest)
]

or_swap : (a b c : Bool) → (a || (b || c)) ≡ (b || (a || c))
or_swap a b c = ground arith

or_same : (a c : Bool) → (a || c) ≡ (a || (a || c))
or_same a c = ground arith

and_swap : (a b c : Bool) → (a && (b && c)) ≡ (b && (a && c))
and_swap a b c = ground arith

and_true : (a : Bool) → a ≡ (a && true)
and_true a = ground arith

none_of : (a b c d : Bool) → (not (a || b) && (not c && d)) ≡ (not (a || c) && (not b && d))
none_of a b c d = ground arith

regroup :
    (h s m f d : Bool)
    → ((not h && s) && ((not m && f) && d)) ≡ (s && ((not h && f) && (not m && d)))
regroup h s m f d = ground arith

has-append_path :
    (m n : ℕ) (path : Text) (d : VolumePaths) → has m (append_path n path d) ≡ ((m == n) || has m d)
has-append_path m n path [] = refl
has-append_path m n path ((k, paths) ∷ rest) = elim (Bool-cases (n == k)) [
  | inl same ↦ rw (same, ==→eq n k same) (or_same (m == k) (has m rest))
  | inr other ↦ rw (other, has-append_path m n path rest) (or_swap (m == k) (m == n) (has m rest))
]

-- every volume has a path
abbrev pub IsFilled : VolumePaths → Type 0
IsFilled d = All (λ e. 0 < length e.1) d

append_path-IsFilled :
    (n : ℕ) (path : Text) (d : VolumePaths) → IsFilled d → IsFilled (append_path n path d)
append_path-IsFilled n path [] filled = (omega arith, tt)
append_path-IsFilled n path ((k, paths) ∷ rest) (some_path, filled) = elim (Bool-cases (n == k)) [
  | inl same ↦ rw same (omega (arith, length-append paths (path ∷ [])), filled)
  | inr other ↦ rw other (some_path, append_path-IsFilled n path rest filled)
]

single-append_path :
    (n : ℕ) (path : Text) (d : VolumePaths)
    → IsFilled d
    → single (append_path n path d) ≡ (not (has n d) && single d)
single-append_path n path [] filled = refl
single-append_path n path ((k, paths) ∷ rest) (some_path, filled) = elim (Bool-cases (n == k)) [
  | inl same ↦
      let more : ltb 1 (length (paths ++ path ∷ [])) ≡ true =
        ground (arith, some_path, length-append paths (path ∷ [])) in
      rw (same, more) refl
  | inr other ↦
      rw (other, single-append_path n path rest filled)
        (and_swap (not (ltb 1 (length paths))) (not (has n rest)) (single rest))
]

fresh-append_path :
    (items : List (Text × Mountable)) (n : ℕ) (path : Text) (d : VolumePaths)
    → fresh items (append_path n path d) ≡ (not (mounts n items) && fresh items d)
fresh-append_path [] n path d = refl
fresh-append_path ((_, cloud_bucket_mount) ∷ rest) n path d = fresh-append_path rest n path d
fresh-append_path ((_, other_object) ∷ rest) n path d = fresh-append_path rest n path d
fresh-append_path ((_, volume m) ∷ rest) n path d =
    rw (has-append_path m n path d, fresh-append_path rest n path d)
      (none_of (m == n) (has m d) (mounts n rest) (fresh rest d))

pub single-collected :
    (items : List (Text × Mountable)) (d : VolumePaths)
    → IsFilled d
    → single (collected items d) ≡ (single d && (fresh items d && distinct items))
single-collected [] d filled = and_true (single d)
single-collected ((_, cloud_bucket_mount) ∷ rest) d filled = single-collected rest d filled
single-collected ((_, other_object) ∷ rest) d filled = single-collected rest d filled
single-collected ((path, volume n) ∷ rest) d filled =
    single-collected rest (append_path n path d) (append_path-IsFilled n path d filled)
    ∙ rw (single-append_path n path d filled, fresh-append_path rest n path d)
        (regroup (has n d) (single d) (mounts n rest) (fresh rest d) (distinct rest))

pub fresh-nil : (items : List (Text × Mountable)) → fresh items [] ≡ true
fresh-nil [] = refl
fresh-nil ((_, volume n) ∷ rest) = fresh-nil rest
fresh-nil ((_, cloud_bucket_mount) ∷ rest) = fresh-nil rest
fresh-nil ((_, other_object) ∷ rest) = fresh-nil rest

-- what is left of the names and the volumes is the same
pub all_usable-named : (vs : List (Text × Mountable)) → all_usable (named vs) ≡ all_usable vs
all_usable-named [] = refl
all_usable-named ((path, m) ∷ rest) = ap (λ b. is_usable m && b) (all_usable-named rest)

mounts-named : (n : ℕ) (vs : List (Text × Mountable)) → mounts n (named vs) ≡ mounts n vs
mounts-named n [] = refl
mounts-named n ((path, m) ∷ rest) = ap (λ b. is_volume n m || b) (mounts-named n rest)

pub distinct-named : (vs : List (Text × Mountable)) → distinct (named vs) ≡ distinct vs
distinct-named [] = refl
distinct-named ((path, volume n) ∷ rest) = rw (mounts-named n rest, distinct-named rest) refl
distinct-named ((path, cloud_bucket_mount) ∷ rest) = distinct-named rest
distinct-named ((path, other_object) ∷ rest) = distinct-named rest
