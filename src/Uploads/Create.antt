-- ===== src/Uploads/Create.antt =====
-- `create_session` of app/services/upload_service.py.
use pyupload_x.Base.{
  ℕ, zero, suc, ◌+◌, ◌-◌, ◌/◌, ◌%◌, ◌^◌, Bool, true, false, Option, none, some, List, [], ◌∷◌, ◌++◌,
  ltb, if◌then◌else◌, Text,
}
use pyupload_x.Base.Int.{ℤ, pos, negsuc}
use pyupload_x.Errors.{ok}
use pyupload_x.Lifecycle.Mode.{Time, seconds}
use pyupload_x.Lifecycle.StateMachine.{UploadStatus}
use pyupload_x.Paths.Segments.{split_on}
use pyupload_x.Db.Rows.{UploadMode, UploadSession}
use pyupload_x.Request.Settings.{get_session_expiry}
use pyupload_x.Uploads.Plan.{NewUpload, Plan, plan, or_default}
use pyupload_x.Request.{World, Identity, Action, App, pure, lift, gets, call, ◌>>=◌}

-- `now + timedelta(seconds=z)`
abbrev pub add_seconds : Time → ℤ → Time
add_seconds t (pos n) = t + seconds n
add_seconds t (negsuc n) = t - seconds (suc n)

-- `rsplit("/", 1)[-1]`
abbrev pub last_of : List Text → Text
last_of [] = []
last_of (p ∷ []) = p
last_of (p ∷ q ∷ ps) = last_of (q ∷ ps)

abbrev pub hex_digit : ℕ → ℕ
hex_digit d = if ltb d 10 then 48 + d else 87 + d

-- the last `k` hexadecimal digits of a number, in front of a text
abbrev pub hex_onto : ℕ → ℕ → Text → Text
hex_onto zero n s = s
hex_onto (suc k) n s = hex_onto k (n / 16) (hex_digit (n % 16) ∷ s)

-- `str(uuid)`: 32 digits in groups of 8, 4, 4, 4 and 12
unfoldable pub uuid_text : ℕ → Text
uuid_text id = hex_onto 8 (id / 16 ^ 24) (
    b'-'
    ∷ hex_onto 4 (id / 16 ^ 20) (
        b'-'
        ∷ hex_onto 4 (id / 16 ^ 16) (b'-' ∷ hex_onto 4 (id / 16 ^ 12) (b'-' ∷ hex_onto 12 id []))))

abbrev pub is_presigned : UploadMode → Bool
is_presigned UploadMode.presigned = true
is_presigned _ = false

module _ {S : Type 0} (app : App S) where
  -- Only a presigned session begins an upload at the backend.
  unfoldable pub initiate : UploadMode → Text → Text → Action S (Option Text)
  initiate mode bucket key =
      if is_presigned mode
      then (do
        id ← call (app.storage.initiate_multipart_upload bucket key)
        pure (if app.storage.is_local then none else some id))
      else pure none

  -- `session.add` and `flush`, and the storage id that the local backend gets afterwards.
  unfoldable pub add_upload : UploadSession → Action S UploadSession
  add_upload u w =
      let id = w.db.next_id in
      let storage_id = if app.storage.is_local then some (uuid_text id) else u.storage_upload_id in
      let row = record u { id = id; storage_upload_id = storage_id } in
      (
        ok row,
        record w { db = record w.db { uploads = w.db.uploads ++ row ∷ []; next_id = id + 1 } },
      )

  -- The row that `create_session` adds.
  unfoldable pub new_row : Identity → NewUpload → Plan → Option Text → World S → UploadSession
  new_row identity r p storage_id w = record {
    id = w.db.next_id;
    tenant_id = identity.tenant_id;
    principal_id = identity.principal_id;
    backend = app.settings.storage.backend;
    upload_mode = p.mode;
    bucket = r.bucket;
    object_key = p.key;
    storage_upload_id = storage_id;
    original_filename = or_default r.original_filename (last_of (split_on b'/' p.key));
    content_type = r.content_type;
    total_size = p.total_size;
    part_size = p.part_size;
    total_parts = p.total_parts;
    file_fingerprint = r.file_fingerprint;
    expected_sha256 = r.expected_sha256;
    status = UploadStatus.initiated;
    requested_lifecycle = r.lifecycle;
    effective_lifecycle = p.effective;
    completed_file_id = none;
    expires_at = add_seconds w.now (get_session_expiry app.settings w.db);
    last_activity_at = w.now;
    created_at = w.now;
    updated_at = w.now;
  }

  unfoldable pub create_session : Identity → NewUpload → Action S UploadSession
  unfolding initiate add_upload new_row
  create_session identity r = do
    w ← gets (λ w. w)
    p ← lift (plan app identity r w)
    storage_id ← initiate p.mode r.bucket p.key
    add_upload (new_row identity r p storage_id w)
