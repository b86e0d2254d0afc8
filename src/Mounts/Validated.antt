-- ===== src/Mounts/Validated.antt =====
-- What `validate_volumes` (modal/_utils/mount_utils.py) accepts.
use modal_client.Prelude.{
  ◌≡◌, refl, ◌∙◌, ap, Bool, true, false, not, ◌&&◌, Option, none, some, List, [], ◌∷◌, Result, ok,
  err, ◌>>=◌, if◌then◌else◌, arith,
}
use modal_client.FilePatterns.Text.{Text, text_eq}
use modal_client.Blobs.Upload.{codes}
use modal_client.Mounts.{
  Mountable, dictionary, MountError, as_posix, abspath, check_path, validate_paths,
  validate_mount_points, paths_of, check_single, validate_volumes,
}
use modal_client.Mounts.Volumes.{
  value, named, all_usable, distinct, single, collected, paths_of-value, check_single-value,
  single-collected, fresh-nil, all_usable-named, distinct-named,
}

-- a path that is canonical and absolute, and none of the three that are taken
abbrev pub is_mount_point : Text → Text → Bool
is_mount_point cwd path =
    text_eq path (abspath cwd path)
    && (not (text_eq (abspath cwd path) (codes "/"))
        && (not (text_eq (abspath cwd path) (codes "/root"))
            && not (text_eq (abspath cwd path) (codes "/tmp"))))

abbrev pub all_mount_points : {V : Type 0} → Text → List (Text × V) → Bool
all_mount_points cwd [] = true
all_mount_points cwd ((path, _) ∷ rest) =
    is_mount_point cwd (as_posix path) && all_mount_points cwd rest

-- the values of a chain, by the test that its first part is
value-bind :
    {A B : Type 0} (r : Result MountError A) (g : A → Result MountError B) (b : Bool) (a : A)
    → value r ≡ (if b then some a else none)
    → value (r >>= g) ≡ (if b then value (g a) else none)
value-bind (ok x) g true a e = ap (λ y. value (g y)) (ground (arith, e))
value-bind (ok x) g false a e = absurd (ground (arith, e))
value-bind (err x) g true a e = absurd (ground (arith, e))
value-bind (err x) g false a e = refl

if_and :
    {A : Type 0} (a b : Bool) (o : Option A)
    → (if a then (if b then o else none) else none) ≡ (if a && b then o else none)
if_and true b o = refl
if_and false b o = refl

check_path-value :
    (cwd path : Text)
    → value (check_path cwd path) ≡ (if is_mount_point cwd path then some tt else none)
unfolding check_path
check_path-value cwd path = ground arith

validate_paths-value :
    {V : Type 0} (cwd : Text) (vs : List (Text × V))
    → value (validate_paths cwd vs) ≡ (if all_mount_points cwd vs then some (named vs) else none)
unfolding validate_paths
validate_paths-value cwd [] = refl
validate_paths-value cwd ((path, vol) ∷ rest) =
    value-bind (check_path cwd (as_posix path)) _ (is_mount_point cwd (as_posix path)) tt
      (check_path-value cwd (as_posix path))
    ∙ ap (λ o. if is_mount_point cwd (as_posix path) then o else none)
        (value-bind (validate_paths cwd rest) (λ others. ok ((as_posix path, vol) ∷ others))
          (all_mount_points cwd rest) (named rest) (validate_paths-value cwd rest))
    ∙ if_and (is_mount_point cwd (as_posix path)) (all_mount_points cwd rest)
        (some ((as_posix path, vol) ∷ named rest))

-- The volumes of a dictionary are accepted if and only if every path is canonical, absolute and none of `/`, `/root`
-- and `/tmp`, every object is a volume or a bucket, and no volume is mounted twice; the result is the
-- dictionary with its paths in POSIX form.
pub validate_volumes-accepted :
    (cwd : Text) (vs : List (Text × Mountable))
    → value (validate_volumes cwd (dictionary vs)) ≡ (
        if all_mount_points cwd vs && (all_usable vs && distinct vs) then some (named vs) else none)
unfolding validate_volumes validate_mount_points
validate_volumes-accepted cwd vs =
    value-bind (validate_paths cwd vs) _ (all_mount_points cwd vs) (named vs)
      (validate_paths-value cwd vs)
    ∙ ap (λ o. if all_mount_points cwd vs then o else none)
        (value-bind (paths_of (named vs) []) _ (all_usable (named vs)) (collected (named vs) [])
            (paths_of-value (named vs) [])
          ∙ rw (all_usable-named vs) (
              ap (λ o. if all_usable vs then o else none)
                (value-bind (check_single (collected (named vs) [])) _
                    (single (collected (named vs) [])) tt
                    (check_single-value (collected (named vs) []))
                  ∙ ap (λ b. if b then some (named vs) else none)
                      (single-collected (named vs) [] tt
                        ∙ rw (fresh-nil (named vs)) (distinct-named vs))))
          ∙ if_and (all_usable vs) (distinct vs) (some (named vs)))
    ∙ if_and (all_mount_points cwd vs) (all_usable vs && distinct vs) (some (named vs))
