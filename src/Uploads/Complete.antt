-- ===== src/Uploads/Complete.antt =====
-- app/services/upload_service.py: `resume` and `complete`.
pub mod Checks
use pyupload_x.Base.{
  ℕ, Bool, true, false, not, ◌&&◌, Option, none, some, List, [], ◌∷◌, ◌++◌, map, ltb, ◌==◌,
  if◌then◌else◌, length, select, contains, range, Text, codes, text_eq,
}
use pyupload_x.Base.Int.{ℤ}
use pyupload_x.Errors.{
  Error, Result, ok, err, upload_aborted, upload_expired, missing_parts, part_etag_mismatch,
  exception,
}
use pyupload_x.Lifecycle.Mode.{Time, Mode, LifecycleAction, action_eq}
use pyupload_x.Lifecycle.StateMachine.{UploadStatus, LifecycleStatus, transition_upload}
use pyupload_x.Lifecycle.Policy.{Effective, or_value}
use pyupload_x.Db.Rows.{UploadSession, UploadPart, FileObject, FileStatus, is_committed, nonempty}
use pyupload_x.Db.Uploads.{save_upload, list_parts_for_upload}
use pyupload_x.Db.Files.{get_file, add_file}
use pyupload_x.Db.{Db}
use pyupload_x.Storage.{StoredPart, StoredObject}
use pyupload_x.Request.{
  Identity, Action, App, pure, raise, lift, gets, call, raise_when, modify_db, ◌>>=◌, ◌>>◌,
}
use pyupload_x.Errors.{◌>>=◌ as bind_result}
use pyupload_x.Uploads.Parts.{get_session, storage_id_of}
use pyupload_x.Uploads.Complete.Checks.{
  ended_error, raise_ended, part_numbered, both_differ, etags_differ, check_etags, is_open,
  is_completed, may_complete,
}

-- the rows of an upload that are committed, in the order of their numbers
unfoldable pub committed_parts : Db → ℕ → List UploadPart
unfolding list_parts_for_upload is_committed
committed_parts db upload_id =
    select (λ p. is_committed p.status) (list_parts_for_upload db upload_id)

abbrev pub numbers_of : List UploadPart → List ℕ
numbers_of ps = map (λ p. p.part_number) ps

abbrev pub stored_numbers : List StoredPart → List ℕ
stored_numbers ps = map (λ p. p.part_number) ps

-- `[n for n in range(1, total + 1) if n not in present]`
unfoldable pub missing_from : ℕ → List ℕ → List ℕ
missing_from total present = select (λ n. not (contains n present)) (range 1 total)

-- a row as the backend is given it
abbrev pub as_stored : UploadPart → StoredPart
as_stored p = record {
  part_number = p.part_number;
  etag = or_value p.etag [];
  size_bytes = p.size_bytes;
  checksum_sha256 = p.checksum_sha256;
}

-- `except ApiError: stored = set()`
abbrev pub or_none_listed : Result (List StoredPart) → Result (List StoredPart)
or_none_listed (ok ps) = ok ps
or_none_listed (err (exception x)) = err (exception x)
or_none_listed (err _) = ok []

-- The lifecycle columns of a file: its mode and action, seconds, expiry and next action.
pub record LifecycleColumns : Type 0 where
  pub mode : Mode
  pub action : LifecycleAction
  pub ttl_seconds : Option ℤ
  pub expires_at : Option Time
  pub next_action_at : Option Time

-- `mode = "permanent"` and no times, unless lifecycles are on and the session has a policy. The
-- action is the policy's in any case.
abbrev pub columns_of : Bool → Option Effective → LifecycleColumns
columns_of enabled none = record {
  mode = Mode.permanent;
  action = LifecycleAction.delete;
  ttl_seconds = none;
  expires_at = none;
  next_action_at = none;
}
columns_of false (some e) = record {
  mode = Mode.permanent;
  action = e.action;
  ttl_seconds = none;
  expires_at = none;
  next_action_at = none;
}
columns_of true (some e) = record {
  mode = e.mode;
  action = e.action;
  ttl_seconds = e.ttl_seconds;
  expires_at = e.expires_at;
  next_action_at = if action_eq e.action LifecycleAction.none_action then none else e.expires_at;
}

abbrev pub is_given {ℓ} : {A : Type ℓ} → Option A → Bool
is_given none = false
is_given (some a) = true

abbrev pub is_empty_list {ℓ} : {A : Type ℓ} → List A → Bool
is_empty_list [] = true
is_empty_list (x ∷ xs) = false

module _ {S : Type 0} (app : App S) (identity : Identity) where
  -- the numbers that the backend lists; an `ApiError` of the backend counts as none
  unfoldable pub listed_numbers : UploadSession → S → Result (List ℕ)
  listed_numbers u store =
      if is_given (nonempty u.storage_upload_id) && app.storage.capabilities.list_parts
      then bind_result
          (or_none_listed (app.storage.list_parts u.bucket u.object_key (storage_id_of u) store))
          (λ listed. ok (stored_numbers listed))
      else ok []

  unfoldable pub resume : ℕ → Action S (UploadSession × List ℕ)
  unfolding get_session ended_error listed_numbers missing_from committed_parts
  resume upload_id = do
    u ← get_session app identity upload_id
    raise_ended (ended_error u.status)
    w ← gets (λ w. w)
    stored ← lift (listed_numbers u w.store)
    let present = numbers_of (committed_parts w.db u.id) ++ stored
    modify_db (save_upload w.now u)
    pure (u, missing_from u.total_parts present)

  -- The parts that the backend is to join: those that it lists, or else the committed rows.
  unfoldable pub reconciled : UploadSession → List UploadPart → S → Result (List StoredPart)
  unfolding check_etags
  reconciled u committed store =
      if is_given (nonempty u.storage_upload_id) && app.storage.capabilities.list_parts
      then bind_result (app.storage.list_parts u.bucket u.object_key (storage_id_of u) store)
          (λ listed.
            let stored =
              if is_empty_list listed && app.storage.is_local
              then map as_stored committed
              else listed in
            bind_result (check_etags committed stored) (λ _. ok stored))
      else ok (map as_stored committed)

  -- The row of the finished file; its key is given when it is added.
  unfoldable pub file_row : UploadSession → StoredObject → Time → FileObject
  file_row u stored now =
      let columns = columns_of app.settings.lifecycle.enabled u.effective_lifecycle in
      record {
        id = 0;
        tenant_id = identity.tenant_id;
        principal_id = identity.principal_id;
        bucket = u.bucket;
        object_key = u.object_key;
        storage_backend = u.backend;
        original_filename = u.original_filename;
        size_bytes = u.total_size;
        content_type = u.content_type;
        etag = stored.etag;
        checksum_algorithm =
            if is_given (nonempty u.expected_sha256) then some (codes "sha256") else none;
        checksum_value = u.expected_sha256;
        file_fingerprint = u.file_fingerprint;
        upload_id = some u.id;
        metadata = [];
        status = FileStatus.active;
        lifecycle_mode = columns.mode;
        lifecycle_action = columns.action;
        lifecycle_status = LifecycleStatus.active;
        ttl_seconds = columns.ttl_seconds;
        expires_at = columns.expires_at;
        next_action_at = columns.next_action_at;
        legal_hold = false;
        lifecycle_source =
            if is_given u.requested_lifecycle then codes "client" else codes "server";
        delete_attempts = 0;
        completed_at = now;
        deleted_at = none;
        created_at = now;
      }

  -- `session.add(file_obj)`, and the session's last state.
  unfoldable pub finish : UploadSession → StoredObject → Action S FileObject
  unfolding add_file save_upload file_row
  finish u stored = do
    w ← gets (λ w. w)
    (f, db) ← lift (add_file (file_row u stored w.now) w.db)
    modify_db (λ _.
        save_upload w.now
          (record u { status = UploadStatus.completed; completed_file_id = some f.id }) db)
    pure f

  -- From the parts on: they are all there, agree with the backend, and are joined.
  unfoldable pub complete_open : UploadSession → Action S FileObject
  unfolding committed_parts missing_from reconciled may_complete finish
  complete_open u = do
    w ← gets (λ w. w)
    let committed = committed_parts w.db u.id
    raise_when (ltb (length committed) u.total_parts)
        (missing_parts (missing_from u.total_parts (numbers_of committed)))
    stored_parts ← lift (reconciled u committed w.store)
    lift (may_complete u.status)
    let u' = record u { status = UploadStatus.completing }
    modify_db (save_upload w.now u')
    stored ←
        call (
          app.storage.complete_multipart_upload u.bucket u.object_key (storage_id_of u)
            stored_parts)
    finish u' stored

  -- the file of a session that is completed already
  unfoldable pub existing_file : UploadSession → Db → Option FileObject
  existing_file u db =
      if is_completed u.status
      then elim u.completed_file_id [
        | none ↦ none
        | some id ↦ get_file db id (some identity.tenant_id)
      ]
      else none

  abbrev pub complete_or_return : UploadSession → Option FileObject → Action S FileObject
  complete_or_return u (some f) = pure f
  complete_or_return u none = do raise_ended (ended_error u.status); complete_open u

  unfoldable pub complete : ℕ → Action S FileObject
  unfolding get_session existing_file ended_error complete_open
  complete upload_id = do
    u ← get_session app identity upload_id
    existing ← gets (λ w. existing_file u w.db)
    complete_or_return u existing
