-- ===== src/Storage/Local/Objects.antt =====
-- app/storage/local.py: `put_object`, `get_object`, `delete_object` and `object_exists`. The flag
-- `fsync` has no effect on a disk that does not crash.
pub mod Outcome
pub mod Reading
pub mod Refines
use pyupload_x.Base.{ℕ, suc, Bool, Option, none, some, List, [], if◌then◌else◌, length, drop, Text}
use pyupload_x.Errors.{Error, PyException, Result, ok, err, checksum_mismatch, exception}
use pyupload_x.Errors.{◌>>=◌ as bind_result}
use pyupload_x.Storage.{Bytes, StoredObject, Effect}
use pyupload_x.Storage.Chunks.{chunk_bytes, copied, read_chunks, concat}
use pyupload_x.Storage.FileSystem.{
  FilePath, parent, directory, file, node_at, without, Disk, make_dirs, write_file, replace, unlink,
  is_some,
}
use pyupload_x.Storage.Local.Paths.{
  LocalStorageConfig, temporary, at_path, give_up, all_of, sum_differs, or_default, object_path,
}

module _ (sha256 : Bytes → Text) where
  -- After the file is in place: the digest is compared, and a file that fails is removed.
  unfoldable pub checked_object :
      Text → Text → Bytes → Option ℕ → Option Text → FilePath → Effect Disk StoredObject
  checked_object bucket object_key b size_bytes checksum_sha256 destination d =
      if sum_differs checksum_sha256 (sha256 b)
      then (err checksum_mismatch, record d { nodes = without destination d.nodes })
      else (
        ok (record {
          bucket = bucket;
          object_key = object_key;
          size_bytes = or_default size_bytes (length b);
          etag = some (sha256 b);
        }),
        d,
      )

  -- `put_object` from the temporary file on
  unfoldable pub put_at :
      Text → Text → Bytes → Option ℕ → Option Text → FilePath → Effect Disk StoredObject
  put_at bucket object_key stream size_bytes checksum_sha256 destination d =
      let b = all_of stream in
      let (complete, d') = write_file (temporary destination) b d in
      if complete
      then elim (replace (temporary destination) destination d'.nodes) [
        | none ↦ give_up (temporary destination) d'
        | some nodes ↦
            checked_object bucket object_key b size_bytes checksum_sha256 destination
              (record d' { nodes = nodes })
      ]
      else give_up (temporary destination) d'

module _ (config : LocalStorageConfig) (sha256 : Bytes → Text) where
  unfoldable pub put_object :
      Text → Text → Bytes → Option ℕ → Option Text → Effect Disk StoredObject
  put_object bucket object_key stream size_bytes checksum_sha256 =
      at_path (object_path config bucket object_key) λ destination d.
        elim (make_dirs [] (parent destination) d.nodes) [
          | none ↦ (err (exception PyException.os_error), d)
          | some nodes ↦
              put_at sha256 bucket object_key stream size_bytes checksum_sha256 destination
                (record d { nodes = nodes })
        ]

module _ (config : LocalStorageConfig) where
  -- The chunks that the stream yields.
  unfoldable pub object_chunks : Text → Text → ℕ → Option ℕ → Disk → Result (List Bytes)
  object_chunks bucket object_key offset length' d =
      bind_result (object_path config bucket object_key) λ path. elim (node_at path d.nodes) [
        | none ↦ err Error.file_not_found
        | some directory ↦ err (exception PyException.os_error)
        | some (file b) ↦ ok (read_chunks chunk_bytes (suc (length b)) length' (drop offset b))
      ]

  unfoldable pub get_object : Text → Text → ℕ → Option ℕ → Disk → Result Bytes
  get_object bucket object_key offset length' d =
      bind_result (object_chunks bucket object_key offset length' d) λ chunks. ok (concat chunks)

  unfoldable pub delete_object : Text → Text → Effect Disk Unit
  delete_object bucket object_key = at_path (object_path config bucket object_key) λ path d.
      elim (unlink path d.nodes) [
        | none ↦ (err (exception PyException.os_error), d)
        | some nodes ↦ (ok tt, record d { nodes = nodes })
      ]

  unfoldable pub object_exists : Text → Text → Disk → Result Bool
  object_exists bucket object_key d =
      bind_result (object_path config bucket object_key) λ path. ok (is_some (node_at path d.nodes))
