-- ===== src/Db/Directories.antt =====
-- app/db/models.py and app/db/repositories/directory_repository.py: the jobs and entries of directory
-- uploads. The source of a job and the columns that no code reads are left out.
use pyupload_x.Base.{
  ℕ, Bool, true, false, ◌&&◌, Option, List, [], ◌∷◌, ◌==◌, if◌then◌else◌, length, select, Text,
  text_eq,
}
use pyupload_x.Base.Int.{ℤ}
use pyupload_x.Lifecycle.Mode.{Time}
use pyupload_x.Lifecycle.Policy.{Requested, Effective}

pub data JobStatus : Type 0 where
  created manifest_uploading ready uploading paused finalizing : JobStatus
  completed cancelling cancelled completed_with_errors : JobStatus

pub data EntryType : Type 0 where
  file directory : EntryType

pub data EntryStatus : Type 0 where
  pending uploading uploaded skipped failed : EntryStatus

pub record DirectoryJob : Type 0 where
  pub id : ℕ
  pub tenant_id : Text
  pub principal_id : Text
  pub root_directory_name : Text
  pub bucket : Text
  pub destination_prefix : Text
  pub status : JobStatus
  pub conflict_policy : Text
  pub total_entries : ℕ
  pub total_files : ℕ
  pub total_directories : ℕ
  pub total_bytes : ℤ
  pub uploaded_files : ℕ
  pub failed_files : ℕ
  pub skipped_files : ℕ
  pub requested_lifecycle : Option Requested
  pub effective_lifecycle : Option Effective
  pub expires_at : Time
  pub updated_at : Time

pub record DirectoryEntry : Type 0 where
  pub id : ℕ
  pub directory_upload_id : ℕ
  pub entry_type : EntryType
  pub relative_path : Text
  pub normalized_path : Text
  pub object_key : Text
  pub size_bytes : ℤ
  pub fingerprint : Option Text
  pub file_id : Option ℕ
  pub status : EntryStatus
  pub error_code : Option Text
  pub attempt_count : ℕ

unfoldable pub job_eq : JobStatus → JobStatus → Bool
job_eq JobStatus.created JobStatus.created = true
job_eq JobStatus.manifest_uploading JobStatus.manifest_uploading = true
job_eq JobStatus.ready JobStatus.ready = true
job_eq JobStatus.uploading JobStatus.uploading = true
job_eq JobStatus.paused JobStatus.paused = true
job_eq JobStatus.finalizing JobStatus.finalizing = true
job_eq JobStatus.completed JobStatus.completed = true
job_eq JobStatus.cancelling JobStatus.cancelling = true
job_eq JobStatus.cancelled JobStatus.cancelled = true
job_eq JobStatus.completed_with_errors JobStatus.completed_with_errors = true
job_eq _ _ = false

unfoldable pub entry_status_eq : EntryStatus → EntryStatus → Bool
entry_status_eq EntryStatus.pending EntryStatus.pending = true
entry_status_eq EntryStatus.uploading EntryStatus.uploading = true
entry_status_eq EntryStatus.uploaded EntryStatus.uploaded = true
entry_status_eq EntryStatus.skipped EntryStatus.skipped = true
entry_status_eq EntryStatus.failed EntryStatus.failed = true
entry_status_eq _ _ = false

unfoldable pub is_job : ℕ → Text → DirectoryJob → Bool
is_job id tenant j = (j.id == id) && text_eq j.tenant_id tenant

unfoldable pub write_job : DirectoryJob → List DirectoryJob → List DirectoryJob
write_job j [] = []
write_job j (k ∷ ks) = if k.id == j.id then j ∷ ks else k ∷ write_job j ks

unfoldable pub write_entry : DirectoryEntry → List DirectoryEntry → List DirectoryEntry
write_entry e [] = []
write_entry e (f ∷ fs) = if f.id == e.id then e ∷ fs else f ∷ write_entry e fs

abbrev pub entries_of : ℕ → List DirectoryEntry → List DirectoryEntry
entries_of job_id es = select (λ e. e.directory_upload_id == job_id) es

unfoldable pub count_entries_by_status : ℕ → EntryStatus → List DirectoryEntry → ℕ
unfolding entry_status_eq
count_entries_by_status job_id status es =
    length (select (λ e. entry_status_eq e.status status) (entries_of job_id es))
