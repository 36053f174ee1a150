-- ===== src/Storage/Local.antt =====
-- app/storage/local.py: the backend that keeps objects in the file system. `hashlib.sha256` is the
-- parameter `sha256`.
pub mod Paths
pub mod Listing
pub mod Objects
pub mod Multipart
pub mod Buckets
pub mod Keys
use pyupload_x.Base.{Bool, true, false, some, [], Text, codes}
use pyupload_x.Errors.{
  Error, PyException, Result, ok, err, storage_unavailable, checksum_mismatch, exception,
  storage_capability_not_supported, bucket_already_exists, bucket_not_empty,
}
use pyupload_x.Errors.{◌>>=◌ as bind_result}
use pyupload_x.Config.{BackendName}
use pyupload_x.Ranges.Number.{decimal, int_of}
use pyupload_x.Paths.Segments.{split_on}
use pyupload_x.Storage.{
  Bytes, StorageCapabilities, StoredObject, StoredPart, Effect, StorageAdapter,
}
use pyupload_x.Storage.Chunks.{chunk_bytes, copied, read_chunks, concat}
use pyupload_x.Storage.FileSystem.{
  FilePath, path_eq, is_under, parent, join_path, resolve_from, Node, directory, file, Nodes,
  node_at, without, without_tree, with_node, file_at, is_dir, Disk, make_dir, make_dirs, write_file,
  replace, unlink, is_some,
}
use pyupload_x.Storage.Local.Paths.{
  LocalStorageConfig, safe_join, temporary, part_name, at_path, give_up, all_of, object_path,
  parts_dir, upload_dir,
}
use pyupload_x.Storage.FileSystem.{
  make_dirs, make_dir, write_file, replace, unlink, is_dir, file_at, node_at, with_node, without,
  without_tree, parent,
}
use pyupload_x.Storage.Local.Paths.{
  object_path, parts_dir, upload_dir, give_up, safe_join, temporary, part_name,
}
use pyupload_x.Storage.Chunks.{read_chunks, concat, copied}
use Listing.{part_files, sorted_by_name, listed, join_files, sorted_parts}
use Objects.{
  put_at, checked_object, object_chunks, put_object, get_object, delete_object, object_exists,
}
use Multipart.{
  join_at, upload_at, upload_part, list_parts, complete_multipart_upload, abort_multipart_upload,
}
use Buckets.{bucket_path, has_file_under, create_bucket, bucket_exists, delete_bucket}

module _ (config : LocalStorageConfig) (sha256 : Bytes → Text) where
  -- A path that is refused counts as missing: the services ask about keys that are normalised.
  abbrev pub or_missing : Result Bool → Bool
  or_missing (ok b) = b
  or_missing (err e) = false

  -- `LocalStorageAdapter`
  unfoldable pub local_storage : StorageAdapter Disk
  unfolding put_object put_at checked_object get_object object_chunks delete_object object_exists
      upload_part upload_at list_parts complete_multipart_upload join_at abort_multipart_upload
      create_bucket bucket_exists delete_bucket object_path parts_dir upload_dir bucket_path give_up
      safe_join make_dirs make_dir write_file replace unlink is_dir file_at node_at with_node
      without without_tree part_files sorted_by_name listed join_files sorted_parts read_chunks
      concat copied temporary part_name parent has_file_under
  local_storage = record {
    capabilities = record {
      multipart = true;
      presigned_put = false;
      presigned_get = false;
      presigned_upload_part = false;
      list_parts = true;
    };
    backend_name = BackendName.local;
    is_local = true;
    bucket_exists = bucket_exists config;
    create_bucket = create_bucket config;
    delete_bucket = delete_bucket config;
    put_object = λ b k stream size sum. put_object config sha256 b k stream (some size) sum;
    get_object = get_object config;
    delete_object = delete_object config;
    object_exists = λ b k d. or_missing (object_exists config b k d);
    initiate_multipart_upload = λ b k d. (ok [], d);
    upload_part = λ b k id n stream size sum. upload_part config sha256 id n stream size;
    list_parts = λ b k id. list_parts config id;
    complete_multipart_upload = complete_multipart_upload config sha256;
    abort_multipart_upload = λ b k id. abort_multipart_upload config id;
    create_presigned_put_url =
        λ b k s. err (storage_capability_not_supported (codes "presigned_put"));
    create_presigned_get_url =
        λ b k s. err (storage_capability_not_supported (codes "presigned_get"));
    create_presigned_upload_part_url =
        λ b k id n s. err (storage_capability_not_supported (codes "presigned_upload_part"));
  }
