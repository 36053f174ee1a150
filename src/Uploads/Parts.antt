-- ===== src/Uploads/Parts.antt =====
-- app/services/upload_service.py: a session looked up, and the parts that it takes.
use pyupload_x.Base.{
  ℕ, ◌-◌, ◌*◌, Bool, true, false, not, ◌&&◌, ◌||◌, Option, none, some, List, [], ◌∷◌, ltb, ◌==◌,
  if◌then◌else◌, length, Text, codes,
}
use pyupload_x.Base.Int.{ℤ, pos, pos_part, leb_ℤ, ltb_ℤ, min_ℤ}
use pyupload_x.Errors.{
  Error, Result, ok, err, upload_not_found, upload_already_completed, upload_aborted,
  upload_expired, storage_capability_not_supported, presign_batch_too_large, invalid_part_number,
  invalid_part_size,
}
use pyupload_x.Lifecycle.StateMachine.{UploadStatus}
use pyupload_x.Db.Rows.{UploadSession, UploadPart, PartStatus, nonempty}
use pyupload_x.Db.Uploads.{get_upload, save_upload, upsert_part, list_parts_for_upload}
use pyupload_x.Storage.{Bytes}
use pyupload_x.Lifecycle.Policy.{or_value, or_else, nonzero}
use pyupload_x.Request.{
  Identity, Action, App, pure, raise, lift, gets, or_raise, call, raise_when, ◌>>=◌, ◌>>◌,
}
use pyupload_x.Errors.{◌>>=◌ as bind_result}
use pyupload_x.Uploads.Create.{uuid_text}

-- `_ensure_active`: the error of a session that takes no more parts
unfoldable pub inactive_error : UploadStatus → Option Error
inactive_error UploadStatus.completed = some upload_already_completed
inactive_error UploadStatus.aborted = some upload_aborted
inactive_error UploadStatus.expired = some upload_expired
inactive_error _ = none

abbrev pub raise_some : {S : Type 0} → Option Error → Action S Unit
raise_some none = pure tt
raise_some (some e) = raise e

-- `1 <= part_number <= total_parts`
abbrev pub is_part_number : ℤ → ℕ → Bool
is_part_number n total = leb_ℤ (pos 1) n && leb_ℤ n (pos total)

abbrev pub part_offset : UploadSession → ℤ → ℕ
part_offset u n = (pos_part n - 1) * u.part_size

-- `upload.storage_upload_id or str(upload.id)`
abbrev pub storage_id_of : UploadSession → Text
storage_id_of u = or_value (nonempty u.storage_upload_id) (uuid_text u.id)

-- `sorted(set(numbers))`
unfoldable pub insert_unique : ℤ → List ℤ → List ℤ
insert_unique n [] = n ∷ []
insert_unique n (m ∷ ms) =
    if ltb_ℤ n m then n ∷ m ∷ ms else if ltb_ℤ m n then m ∷ insert_unique n ms else m ∷ ms

unfoldable pub sorted_set : List ℤ → List ℤ
unfolding insert_unique
sorted_set [] = []
sorted_set (n ∷ ns) = insert_unique n (sorted_set ns)

abbrev pub is_initiated : UploadStatus → Bool
is_initiated UploadStatus.initiated = true
is_initiated _ = false

module _ {S : Type 0} (app : App S) (identity : Identity) where
  unfoldable pub get_session : ℕ → Action S UploadSession
  get_session upload_id w =
      or_raise (get_upload w.db upload_id (some identity.tenant_id)) upload_not_found w

  unfoldable pub list_committed_parts : ℕ → Action S (List UploadPart)
  unfolding get_session
  list_committed_parts upload_id = do
    get_session upload_id
    gets (λ w. list_parts_for_upload w.db upload_id)

  -- The loop over the part numbers: it stops at the first one out of range.
  unfoldable pub presign_each : UploadSession → Text → ℤ → List ℤ → Result (List (ℕ × Text))
  presign_each u storage_id expires [] = ok []
  presign_each u storage_id expires (n ∷ ns) =
      let rest = presign_each u storage_id expires ns in
      if is_part_number n u.total_parts
      then bind_result
          (app.storage.create_presigned_upload_part_url u.bucket u.object_key storage_id
            (pos_part n) expires)
          (λ url. bind_result rest (λ urls. ok ((pos_part n, url) ∷ urls)))
      else err (invalid_part_number n u.total_parts)

  abbrev pub presign_with :
      UploadSession → List ℤ → Option ℤ → Option Text → Result (List (ℕ × Text))
  presign_with u numbers expires none =
      err (storage_capability_not_supported (codes "presigned_upload_part"))
  presign_with u numbers expires (some storage_id) =
      let settings = app.settings in
      if not app.storage.capabilities.presigned_upload_part
      then err (storage_capability_not_supported (codes "presigned_upload_part"))
      else if ltb settings.uploads.multipart.maximum_presign_batch_size (length numbers)
      then err (presign_batch_too_large settings.uploads.multipart.maximum_presign_batch_size)
      else presign_each u storage_id
          (min_ℤ (or_value (nonzero expires) (pos settings.presign.upload_part_expires_seconds))
            (pos settings.presign.maximum_expires_seconds))
          (sorted_set numbers)

  unfoldable pub presign_parts : ℕ → List ℤ → Option ℤ → Action S (List (ℕ × Text))
  unfolding get_session inactive_error presign_each sorted_set
  presign_parts upload_id part_numbers expires_seconds = do
    u ← get_session upload_id
    raise_some (inactive_error u.status)
    lift (presign_with u part_numbers expires_seconds (nonempty u.storage_upload_id))

  -- `update_status(…, uploading)` for a session that has no part yet
  unfoldable pub start_uploading : UploadSession → Action S UploadSession
  start_uploading u w =
      if is_initiated u.status
      then (let u' = record u { status = UploadStatus.uploading } in
          (ok u', record w { db = save_upload w.now u' w.db }))
      else (ok u, w)

  -- `upsert_part(…)` and `touch_activity`
  unfoldable pub record_part : UploadSession → UploadPart → Action S Unit
  unfolding save_upload upsert_part
  record_part u part w =
      (ok tt, record w { db = save_upload w.now u (upsert_part app.dialect part w.db) })

  abbrev pub too_small : UploadSession → ℤ → ℕ → Bool
  too_small u n size =
      ltb size app.settings.uploads.multipart.minimum_part_size_bytes
      && not (pos_part n == u.total_parts)
      && ltb 1 u.total_parts

  unfoldable pub proxy_upload_part : ℕ → ℤ → Bytes → ℕ → Option Text → Action S UploadPart
  unfolding get_session inactive_error start_uploading record_part
  proxy_upload_part upload_id part_number stream size_bytes checksum_sha256 = do
    u ← get_session upload_id
    raise_some (inactive_error u.status)
    raise_when (not (is_part_number part_number u.total_parts))
        (invalid_part_number part_number u.total_parts)
    raise_when (ltb u.part_size size_bytes || too_small u part_number size_bytes) (
        invalid_part_size (pos size_bytes) app.settings.uploads.multipart.minimum_part_size_bytes
          u.part_size)
    u' ← start_uploading u
    stored ← call (
        app.storage.upload_part u'.bucket u'.object_key (storage_id_of u') (pos_part part_number)
          stream size_bytes checksum_sha256)
    let part : UploadPart = record {
      upload_id = u'.id;
      part_number = pos_part part_number;
      offset_bytes = part_offset u' part_number;
      size_bytes = stored.size_bytes;
      etag = some stored.etag;
      checksum_sha256 = or_else (nonempty stored.checksum_sha256) checksum_sha256;
      status = PartStatus.committed;
    }
    record_part u' part
    pure part

  unfoldable pub commit_part : ℕ → ℤ → Text → ℤ → Option Text → Action S Unit
  unfolding get_session inactive_error record_part
  commit_part upload_id part_number etag size_bytes checksum_sha256 = do
    u ← get_session upload_id
    raise_some (inactive_error u.status)
    raise_when (not (is_part_number part_number u.total_parts))
        (invalid_part_number part_number u.total_parts)
    record_part u (record {
      upload_id = u.id;
      part_number = pos_part part_number;
      offset_bytes = part_offset u part_number;
      size_bytes = size_bytes;
      etag = some etag;
      checksum_sha256 = checksum_sha256;
      status = PartStatus.committed;
    })
