-- ===== src/Storage/Local/Buckets.antt =====
-- app/storage/local.py: the directories of the buckets.
pub mod Kept
use pyupload_x.Base.{Bool, false, not, ◌||◌, none, some, [], ◌∷◌, if◌then◌else◌, Text}
use pyupload_x.Errors.{
  Result, ok, err, storage_unavailable, bucket_already_exists, bucket_not_empty,
}
use pyupload_x.Storage.{Effect}
use pyupload_x.Storage.FileSystem.{
  FilePath, is_under, directory, file, Nodes, node_at, without_tree, is_dir, Disk, make_dirs,
  is_some,
}
use pyupload_x.Storage.Local.Paths.{LocalStorageConfig, safe_join, at_path}

-- a file at or below a path
unfoldable pub has_file_under : FilePath → Nodes → Bool
unfolding is_under
has_file_under dir [] = false
has_file_under dir ((p, directory) ∷ rest) = has_file_under dir rest
has_file_under dir ((p, file b) ∷ rest) = is_under dir p || has_file_under dir rest

module _ (config : LocalStorageConfig) where
  unfoldable pub bucket_path : Text → Result FilePath
  bucket_path bucket = safe_join config.root_path (bucket ∷ [])

  unfoldable pub create_bucket : Text → Effect Disk Unit
  create_bucket bucket = at_path (bucket_path bucket) λ destination d.
      if is_some (node_at destination d.nodes)
      then (err bucket_already_exists, d)
      else elim (make_dirs [] destination d.nodes) [
        | none ↦ (err storage_unavailable, d)
        | some nodes ↦ (ok tt, record d { nodes = nodes })
      ]

  abbrev pub is_dir_result : Result FilePath → Nodes → Bool
  is_dir_result (err e) nodes = false
  is_dir_result (ok p) nodes = is_dir p nodes

  unfoldable pub bucket_exists : Text → Disk → Bool
  bucket_exists bucket d = is_dir_result (bucket_path bucket) d.nodes

  unfoldable pub delete_bucket : Text → Effect Disk Unit
  delete_bucket bucket = at_path (bucket_path bucket) λ destination d.
      if not (is_dir destination d.nodes)
      then (ok tt, d)
      else if has_file_under destination d.nodes
      then (err bucket_not_empty, d)
      else (ok tt, record d { nodes = without_tree destination d.nodes })
