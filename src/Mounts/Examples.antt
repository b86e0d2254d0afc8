-- ===== src/Mounts/Examples.antt =====
-- Tests and concrete runs of the checks of mount paths (modal/_utils/mount_utils.py).
use modal_client.Prelude.{◌≡◌, refl, some, List, [], ◌∷◌, ok, err}
use modal_client.FilePatterns.Text.{Text, normpath, split, keep_all, join}
use modal_client.Blobs.Upload.{codes}
use modal_client.Mounts.{
  Mountable, volume, dictionary, as_posix, abspath, check_path, validate_paths,
  validate_mount_points, paths_of, check_single, validate_volumes, not_canonical, at_root,
  mounted_twice,
}
use modal_client.Mounts.Volumes.{value}
use modal_client.Mounts.Validated.{validate_volumes-accepted}

abbrev two_volumes : List (Text × Mountable)
two_volumes = (codes "/data/", volume 1) ∷ (codes "/out", volume 2) ∷ []

validate_volumes-accepted_example :
    value (validate_volumes (codes "/w") (dictionary two_volumes))
    ≡ some ((codes "/data", volume 1) ∷ (codes "/out", volume 2) ∷ [])
unfolding as_posix abspath normpath split keep_all join
validate_volumes-accepted_example = validate_volumes-accepted (codes "/w") two_volumes

same_volume_twice :
    validate_volumes
      (codes "/w")
      (dictionary ((codes "/a", volume 1) ∷ (codes "/b", volume 1) ∷ []))
    ≡ err mounted_twice
unfolding validate_volumes validate_mount_points validate_paths check_path paths_of check_single
    as_posix abspath normpath split keep_all join
same_volume_twice = refl

relative_path : check_path (codes "/w") (codes "a") ≡ err not_canonical
unfolding check_path abspath normpath split keep_all join
relative_path = refl

root_directory : check_path (codes "/w") (as_posix (codes "/root/")) ≡ err at_root
unfolding check_path as_posix abspath normpath split keep_all join
root_directory = refl

-- two slashes at the start are kept, so this is not recognised as the same directory
root_with_two_slashes : check_path (codes "/w") (as_posix (codes "//root")) ≡ ok tt
unfolding check_path as_posix abspath normpath split keep_all join
root_with_two_slashes = refl
