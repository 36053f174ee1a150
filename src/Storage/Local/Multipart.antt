-- ===== src/Storage/Local/Multipart.antt =====
-- app/storage/local.py: the parts of an upload, and their joining.
pub mod Parts
pub mod Names
pub mod Joined
pub mod RoundTrip
use pyupload_x.Base.{ℕ, not, none, some, List, [], ◌∷◌, ◌++◌, ◌==◌, if◌then◌else◌, length, Text}
use pyupload_x.Base.Int.{pos}
use pyupload_x.Errors.{PyException, Result, ok, err, exception}
use pyupload_x.Errors.{◌>>=◌ as bind_result}
use pyupload_x.Storage.{Bytes, StoredObject, StoredPart, Effect}
use pyupload_x.Storage.Chunks.{copied}
use pyupload_x.Storage.FileSystem.{
  FilePath, parent, node_at, without, without_tree, Disk, make_dirs, write_file, replace, unlink,
  is_some,
}
use pyupload_x.Storage.Local.Paths.{
  LocalStorageConfig, temporary, part_name, at_path, give_up, all_of, object_path, parts_dir,
  upload_dir,
}
use pyupload_x.Storage.Local.Listing.{part_files, sorted_by_name, listed, sorted_parts, join_files}

module _ (config : LocalStorageConfig) where
  unfoldable pub list_parts : Text → Disk → Result (List StoredPart)
  list_parts upload_id d = bind_result (parts_dir config upload_id) λ dir.
      if is_some (node_at dir d.nodes)
      then listed (sorted_by_name (part_files dir d.nodes))
      else ok []

  unfoldable pub abort_multipart_upload : Text → Effect Disk Unit
  abort_multipart_upload upload_id =
      at_path (upload_dir config upload_id)
        λ upload d. (ok tt, record d { nodes = without_tree upload d.nodes })

-- `finally: shutil.rmtree(…)`
abbrev pub finally_removed : {A : Type 0} → FilePath → Result A × Disk → Result A × Disk
finally_removed dir (r, d) = (r, record d { nodes = without_tree dir d.nodes })

module _ (sha256 : Bytes → Text) where
  -- From the temporary file to its place; the parts are removed by the caller.
  unfoldable pub join_at :
      Text → Text → FilePath → FilePath → List StoredPart → Effect Disk StoredObject
  join_at bucket object_key destination dir parts d =
      let (b, present) = join_files dir (sorted_parts parts) d.nodes in
      let (complete, d') = write_file (temporary destination) b d in
      if not complete
      then (err (exception PyException.os_error), d')
      else if not present
      then (err (exception PyException.file_not_found), d')
      else elim (replace (temporary destination) destination d'.nodes) [
        | none ↦ (err (exception PyException.os_error), d')
        | some nodes ↦ (
          ok (record {
            bucket = bucket;
            object_key = object_key;
            size_bytes = length b;
            etag = some (sha256 b);
          }),
          record d' { nodes = nodes },
        )
      ]

  -- `upload_part` from the file of the part on
  unfoldable pub upload_at : ℕ → Bytes → ℕ → FilePath → Effect Disk StoredPart
  upload_at part_number stream size_bytes path d =
      let b = all_of stream in
      let (complete, d') = write_file path b d in
      if not complete
      then give_up path d'
      else if not (length b == size_bytes)
      then (err (exception PyException.value_error), record d' { nodes = without path d'.nodes })
      else (
        ok (record {
          part_number = part_number;
          etag = sha256 b;
          size_bytes = pos (length b);
          checksum_sha256 = some (sha256 b);
        }),
        d',
      )

module _ (config : LocalStorageConfig) (sha256 : Bytes → Text) where
  unfoldable pub upload_part : Text → ℕ → Bytes → ℕ → Effect Disk StoredPart
  upload_part upload_id part_number stream size_bytes =
      at_path (parts_dir config upload_id) λ dir d. elim (make_dirs [] dir d.nodes) [
        | none ↦ (err (exception PyException.os_error), d)
        | some nodes ↦
            upload_at sha256 part_number stream size_bytes (dir ++ part_name part_number ∷ [])
              (record d { nodes = nodes })
      ]

  unfoldable pub complete_multipart_upload :
      Text → Text → Text → List StoredPart → Effect Disk StoredObject
  complete_multipart_upload bucket object_key upload_id parts =
      at_path (object_path config bucket object_key) λ destination d.
        elim (make_dirs [] (parent destination) d.nodes) [
          | none ↦ (err (exception PyException.os_error), d)
          | some nodes ↦
              at_path (parts_dir config upload_id)
                (λ dir. at_path (upload_dir config upload_id) λ upload d'.
                  finally_removed upload
                    (join_at sha256 bucket object_key destination dir parts d'))
                (record d { nodes = nodes })
        ]
