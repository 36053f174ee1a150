-- ===== src/Db/Rows.antt =====
-- app/db/models.py: the rows of the tables. `updated_at` and `last_activity_at` are kept for the
-- upload sessions only, whose code sets and reads them.
use pyupload_x.Base.{ℕ, Bool, true, false, Option, none, some, List, [], ◌∷◌, Text}
use pyupload_x.Base.Int.{ℤ}
use pyupload_x.Lifecycle.Mode.{Time, Mode, LifecycleAction}
use pyupload_x.Lifecycle.StateMachine.{UploadStatus, LifecycleStatus}
use pyupload_x.Lifecycle.Policy.{Requested, Effective}
use pyupload_x.Config.{BackendName}

pub data UploadMode : Type 0 where
  automatic proxy presigned : UploadMode

pub data PartStatus : Type 0 where
  pending uploaded committed failed : PartStatus

pub data FileStatus : Type 0 where
  active deleted : FileStatus

pub record UploadSession : Type 0 where
  pub id : ℕ
  pub tenant_id : Text
  pub principal_id : Text
  pub backend : BackendName
  pub upload_mode : UploadMode
  pub bucket : Text
  pub object_key : Text
  pub storage_upload_id : Option Text
  pub original_filename : Text
  pub content_type : Option Text
  pub total_size : ℕ
  pub part_size : ℕ
  pub total_parts : ℕ
  pub file_fingerprint : Option Text
  pub expected_sha256 : Option Text
  pub status : UploadStatus
  pub requested_lifecycle : Option Requested
  pub effective_lifecycle : Option Effective
  pub completed_file_id : Option ℕ
  pub expires_at : Time
  pub last_activity_at : Time
  pub created_at : Time
  pub updated_at : Time

-- a row is unique in its upload and number
pub record UploadPart : Type 0 where
  pub upload_id : ℕ
  pub part_number : ℕ
  pub offset_bytes : ℕ
  pub size_bytes : ℤ
  pub etag : Option Text
  pub checksum_sha256 : Option Text
  pub status : PartStatus

-- a row is unique in its tenant, bucket and key
pub record FileObject : Type 0 where
  pub id : ℕ
  pub tenant_id : Text
  pub principal_id : Text
  pub bucket : Text
  pub object_key : Text
  pub storage_backend : BackendName
  pub original_filename : Text
  pub size_bytes : ℕ
  pub content_type : Option Text
  pub etag : Option Text
  pub checksum_algorithm : Option Text
  pub checksum_value : Option Text
  pub file_fingerprint : Option Text
  pub upload_id : Option ℕ
  pub metadata : List (Text × Text)
  pub status : FileStatus
  pub lifecycle_mode : Mode
  pub lifecycle_action : LifecycleAction
  pub lifecycle_status : LifecycleStatus
  pub ttl_seconds : Option ℤ
  pub expires_at : Option Time
  pub next_action_at : Option Time
  pub legal_hold : Bool
  pub lifecycle_source : Text
  pub delete_attempts : ℕ
  pub completed_at : Time
  pub deleted_at : Option Time
  pub created_at : Time

pub record LifecycleEvent : Type 0 where
  pub tenant_id : Text
  pub file_id : ℕ
  pub event_type : Text
  pub from_status : LifecycleStatus
  pub to_status : LifecycleStatus
  pub reason : Option Text

pub data WebhookStatus : Type 0 where
  pending delivered failed : WebhookStatus

pub record OutboxMessage : Type 0 where
  pub id : ℕ
  pub tenant_id : Text
  pub event_type : Text
  pub file_id : ℕ
  pub status : WebhookStatus
  pub attempts : ℕ
  pub next_attempt_at : Time

-- The JSON object of a stored default policy: a key that is missing is `none`, and a null is
-- `some none`.
pub record StoredDefault : Type 0 where
  pub mode : Option (Option Mode)
  pub action : Option (Option LifecycleAction)
  pub ttl_seconds : Option (Option ℤ)

pub record StorageBucket : Type 0 where
  pub id : ℕ
  pub tenant_id : Text
  pub name : Text
  pub created_by : Text

unfoldable pub is_committed : PartStatus → Bool
is_committed PartStatus.committed = true
is_committed _ = false

unfoldable pub is_deleted : FileStatus → Bool
is_deleted FileStatus.deleted = true
is_deleted FileStatus.active = false

-- an optional text, where the empty one counts as missing
abbrev pub nonempty : Option Text → Option Text
nonempty none = none
nonempty (some []) = none
nonempty (some (c ∷ s)) = some (c ∷ s)
