-- ===== src/Files/Access.antt =====
-- app/services/file_service.py: `get`, `download`, `delete` and the presigned links. The response that
-- a file is serialised to is the file here.
use pyupload_x.Base.{ℕ, not, Option, none, some, Text, codes}
use pyupload_x.Base.Int.{ℤ, pos, pos_part, min_ℤ}
use pyupload_x.Errors.{
  Result, ok, file_not_found, file_under_legal_hold, storage_capability_not_supported,
  invalid_bucket, ◌>>=◌ as bind_result,
}
use pyupload_x.Ranges.{ByteRange, range_length, parse_byte_range}
use pyupload_x.Config.{Settings}
use pyupload_x.Paths.{normalize_relative_path}
use pyupload_x.Lifecycle.StateMachine.{LifecycleStatus}
use pyupload_x.Lifecycle.Policy.{or_value, nonzero}
use pyupload_x.Buckets.{is_bucket_allowed}
use pyupload_x.Db.Rows.{FileObject, FileStatus, is_deleted, nonempty}
use pyupload_x.Db.Files.{get_file, save_file}
use pyupload_x.Storage.{Bytes}
use pyupload_x.Request.{
  Identity, App, Action, pure, lift, gets, or_raise, call, raise_when, modify_db, ◌>>=◌, ◌>>◌,
}

abbrev pub offset_of : Option ByteRange → ℕ
offset_of none = 0
offset_of (some r) = pos_part r.start

abbrev pub length_of : Option ByteRange → Option ℕ
length_of none = none
length_of (some r) = some (pos_part (range_length r))

-- `min(expires_seconds or default, maximum)`
unfoldable pub presign_seconds : Settings → Option ℤ → ℤ
presign_seconds settings expires =
    min_ℤ (or_value (nonzero expires) (pos settings.presign.default_expires_seconds))
      (pos settings.presign.maximum_expires_seconds)

abbrev pub Download : Type 0
Download = FileObject × Bytes × Option ByteRange

module _ {S : Type 0} (app : App S) where
  -- a file that is missing or deleted is not found
  unfoldable pub live_file : Option Text → ℕ → Action S FileObject
  unfolding is_deleted
  live_file tenant id = do
    w ← gets (λ w. w)
    f ← or_raise (get_file w.db id tenant) file_not_found
    raise_when (is_deleted f.status) file_not_found
    pure f

  -- the range of the header, and the bytes that the backend has there
  unfoldable pub download_of : FileObject → Option Text → S → Result Download
  unfolding parse_byte_range range_length
  download_of f range_header store =
      bind_result (parse_byte_range (nonempty range_header) f.size_bytes) (λ range.
        bind_result
          (app.storage.get_object f.bucket f.object_key (offset_of range) (length_of range) store)
          (λ stream. ok (f, stream, range)))

  -- `download_for_link` has no tenant
  unfoldable pub download_for_link : ℕ → Option Text → Action S Download
  unfolding live_file download_of
  download_for_link id range_header = do
    f ← live_file none id
    w ← gets (λ w. w)
    lift (download_of f range_header w.store)

  module _ (identity : Identity) where
    unfoldable pub get : ℕ → Action S FileObject
    unfolding live_file
    get id = live_file (some identity.tenant_id) id

    unfoldable pub download : ℕ → Option Text → Action S Download
    unfolding get download_of
    download id range_header = do
      f ← get id
      w ← gets (λ w. w)
      lift (download_of f range_header w.store)

    unfoldable pub delete : ℕ → Action S Unit
    unfolding live_file save_file
    delete id = do
      f ← live_file (some identity.tenant_id) id
      raise_when f.legal_hold file_under_legal_hold
      call (app.storage.delete_object f.bucket f.object_key)
      w ← gets (λ w. w)
      modify_db (
          save_file (record f {
            status = FileStatus.deleted;
            deleted_at = some w.now;
            lifecycle_status = LifecycleStatus.deleted;
          }))

    unfoldable pub presign_download : ℕ → Option ℤ → Action S Text
    unfolding get presign_seconds
    presign_download id expires = do
      f ← get id
      raise_when (not app.storage.capabilities.presigned_get)
          (storage_capability_not_supported (codes "presigned_get"))
      lift (
          app.storage.create_presigned_get_url f.bucket f.object_key
            (presign_seconds app.settings expires))

    unfoldable pub presign_put : Text → Text → Option ℤ → Action S Text
    unfolding presign_seconds
    presign_put bucket object_key expires = do
      w ← gets (λ w. w)
      raise_when (not (is_bucket_allowed app.settings w.db identity.tenant_id bucket))
          invalid_bucket
      key ← lift (normalize_relative_path app.nfc 64 1024 object_key)
      raise_when (not app.storage.capabilities.presigned_put)
          (storage_capability_not_supported (codes "presigned_put"))
      lift (app.storage.create_presigned_put_url bucket key (presign_seconds app.settings expires))
