-- ===== src/Mounts.antt =====
-- modal/_utils/mount_utils.py: the checks of the paths where volumes are mounted. `cwd` is the working directory.
use modal_client.Prelude.{
  ℕ, ◌+◌, ltb, ◌==◌, Bool, true, false, not, ◌&&◌, ◌||◌, Option, none, some, List, [], ◌∷◌, ◌++◌,
  length, Result, ok, err, ◌>>=◌, if◌then◌else◌,
}
use modal_client.FilePatterns.Text.{
  Text, text_eq, startswith, endswith, split, join, normpath, initial_slashes, or_dot,
}
use modal_client.Blobs.Upload.{codes}
pub mod Volumes
pub mod Validated
mod Examples

abbrev pub slash : ℕ
slash = b'/'

-- what a path maps to: a volume by its identity, a bucket, or an object of another type
pub data Mountable : Type 0 where
  volume : ℕ → Mountable
  cloud_bucket_mount other_object : Mountable

-- the argument: a dictionary in the order of its keys, or another object
pub data VolumeLikes (V : Type 0) : Type 0 where
  dictionary : List (Text × V) → VolumeLikes V
  no_dictionary : VolumeLikes V

-- `InvalidError`, by its message
pub data MountError : Type 0 where
  wrong_type not_canonical at_root_directory at_root at_tmp not_usable mounted_twice : MountError

-- the parts of a path that are neither empty nor a dot
abbrev pub real_parts : List Text → List Text
real_parts [] = []
real_parts (part ∷ parts) =
    if text_eq part [] || text_eq part (b'.' ∷ [])
    then real_parts parts
    else part ∷ real_parts parts

-- `PurePath(path).as_posix()`
unfoldable pub as_posix : Text → Text
as_posix path = or_dot (initial_slashes slash path ++ join slash (real_parts (split slash path)))

-- `posixpath.join` of the working directory
abbrev pub in_cwd : Text → Text → Text
in_cwd cwd path = if endswith cwd (slash ∷ []) then cwd ++ path else cwd ++ slash ∷ path

-- `posixpath.abspath`
unfoldable pub abspath : Text → Text → Text
abspath cwd path =
    if startswith path (slash ∷ []) then normpath slash path else normpath slash (in_cwd cwd path)

-- the chain of tests of one path
unfoldable pub check_path : Text → Text → Result {0, 0} MountError Unit
unfolding abspath
check_path cwd path =
    let abs_path = abspath cwd path in
    if not (text_eq path abs_path)
    then err not_canonical
    else if text_eq abs_path (codes "/")
    then err at_root_directory
    else if text_eq abs_path (codes "/root")
    then err at_root
    else if text_eq abs_path (codes "/tmp")
    then err at_tmp
    else ok tt

module _ {V : Type 0} where
  unfoldable pub validate_paths : Text → List (Text × V) → Result MountError (List (Text × V))
  unfolding check_path
  validate_paths cwd [] = ok []
  validate_paths cwd ((path, vol) ∷ rest) =
      let validated = validate_paths cwd rest in
      check_path cwd (as_posix path) >>= λ _.
      validated >>= λ others. ok ((as_posix path, vol) ∷ others)

  unfoldable pub validate_mount_points : Text → VolumeLikes V → Result MountError (List (Text × V))
  unfolding validate_paths
  validate_mount_points cwd no_dictionary = err wrong_type
  validate_mount_points cwd (dictionary volume_likes) = validate_paths cwd volume_likes

-- a test that an object is a network file system
module _ {V : Type 0} (is_network_file_system : V → Bool) where
  unfoldable pub check_file_systems : List (Text × V) → Result {0, 0} MountError Unit
  check_file_systems [] = ok tt
  check_file_systems ((path, fs) ∷ rest) =
      if is_network_file_system fs then check_file_systems rest else err not_usable

  unfoldable pub validate_network_file_systems :
      Text → VolumeLikes V → Result MountError (List (Text × V))
  unfolding check_file_systems
  validate_network_file_systems cwd network_file_systems =
      validate_mount_points cwd network_file_systems >>= λ validated.
      check_file_systems validated >>= λ _. ok validated

-- the paths of each volume, in the order of the first
abbrev pub VolumePaths : Type 0
VolumePaths = List (ℕ × List Text)

-- `volume_to_paths.setdefault(volume, []).append(path)`
abbrev pub append_path : ℕ → Text → VolumePaths → VolumePaths
append_path n path [] = (n, path ∷ []) ∷ []
append_path n path ((m, paths) ∷ rest) =
    if n == m then (m, paths ++ path ∷ []) ∷ rest else (m, paths) ∷ append_path n path rest

unfoldable pub paths_of : List (Text × Mountable) → VolumePaths → Result MountError VolumePaths
paths_of [] volume_to_paths = ok volume_to_paths
paths_of ((path, other_object) ∷ rest) volume_to_paths = err not_usable
paths_of ((path, cloud_bucket_mount) ∷ rest) volume_to_paths = paths_of rest volume_to_paths
paths_of ((path, volume n) ∷ rest) volume_to_paths =
    paths_of rest (append_path n path volume_to_paths)

unfoldable pub check_single : VolumePaths → Result {0, 0} MountError Unit
check_single [] = ok tt
check_single ((n, paths) ∷ rest) =
    if ltb 1 (length paths) then err mounted_twice else check_single rest

unfoldable pub validate_volumes :
    Text → VolumeLikes Mountable → Result MountError (List (Text × Mountable))
unfolding paths_of check_single
validate_volumes cwd volumes = validate_mount_points cwd volumes >>= λ validated_volumes.
    paths_of validated_volumes [] >>= λ volume_to_paths.
    check_single volume_to_paths >>= λ _. ok validated_volumes
