-- ===== src/Directories/Service.antt =====
-- app/services/directory_upload_service.py: a job from its start to its end, and
-- app/directory_upload/aggregation.py. The listing of entries is left out.
use pyupload_x.Base.{
  ℕ, ◌+◌, Bool, not, ◌&&◌, Option, none, List, [], ◌∷◌, ◌++◌, ltb, ◌==◌, if◌then◌else◌, length,
  find, any, Text, contains_text,
}
use pyupload_x.Base.Int.{ℤ, pos, ◌+ℤ◌}
use pyupload_x.Errors.{
  Result, ok, err, directory_upload_not_found, directory_upload_disabled, upload_state_conflict,
  directory_has_failed_entries, entry_not_found, invalid_bucket, invalid_conflict_policy,
}
use pyupload_x.Lifecycle.Policy.{Requested}
use pyupload_x.Paths.{normalize_relative_path, strip_slashes}
use pyupload_x.Db.{Db}
use pyupload_x.Db.Directories.{
  JobStatus, EntryStatus, DirectoryJob, DirectoryEntry, job_eq, is_job, write_job, write_entry,
  entries_of, count_entries_by_status,
}
use pyupload_x.Request.Settings.{get_session_expiry}
use pyupload_x.Request.{
  Identity, App, Action, pure, lift, gets, or_raise, raise_when, modify_db, ◌>>=◌, ◌>>◌,
}
use pyupload_x.Uploads.Plan.{effective_lifecycle, or_default}
use pyupload_x.Uploads.Create.{add_seconds}
use pyupload_x.Directories.StateMachine.{transition}

abbrev pub one_of : List JobStatus → JobStatus → Bool
one_of ss s = any (job_eq s) ss

unfoldable pub total_size : List DirectoryEntry → ℤ
unfolding ◌+ℤ◌
total_size [] = pos 0
total_size (e ∷ es) = e.size_bytes +ℤ total_size es

-- the columns that `aggregate_progress` sets
unfoldable pub aggregated : List DirectoryEntry → DirectoryJob → DirectoryJob
unfolding total_size count_entries_by_status
aggregated es j = record j {
  total_entries = length (entries_of j.id es);
  total_bytes = total_size (entries_of j.id es);
  uploaded_files = count_entries_by_status j.id EntryStatus.uploaded es;
  failed_files = count_entries_by_status j.id EntryStatus.failed es;
  skipped_files = count_entries_by_status j.id EntryStatus.skipped es;
}

abbrev pub saved_job : DirectoryJob → Db → Db
saved_job j db = record db { jobs = write_job j db.jobs }

-- the arguments of `create_job`
pub record NewJob : Type 0 where
  pub root_directory_name : Text
  pub bucket : Text
  pub destination_prefix : Text
  pub conflict_policy : Text
  pub requested_lifecycle : Option Requested

-- `if prefix: normalize_relative_path(prefix)`, whose result is not used
abbrev pub checked_prefix : (Text → Text) → Text → Result (Unit {0})
checked_prefix nfc [] = ok tt
checked_prefix nfc (c ∷ s) = elim (normalize_relative_path nfc 64 1024 (c ∷ s)) [
  | ok q ↦ ok tt
  | err e ↦ err e
]

module _ {S : Type 0} (app : App S) (identity : Identity) where
  unfoldable pub create_job : NewJob → Action S DirectoryJob
  unfolding effective_lifecycle
  create_job r = do
    w ← gets (λ w. w)
    let conflicts = app.settings.directory_upload
    raise_when (not conflicts.enabled) directory_upload_disabled
    raise_when (not (contains_text r.bucket app.settings.storage.allowed_buckets)) invalid_bucket
    let policy = or_default r.conflict_policy conflicts.default_policy
    raise_when (not (contains_text policy conflicts.allowed_policies)) invalid_conflict_policy
    let prefix = strip_slashes r.destination_prefix
    lift (checked_prefix app.nfc prefix)
    effective ← lift (effective_lifecycle app.settings w.db r.requested_lifecycle none w.now)
    let job : DirectoryJob = record {
      id = w.db.next_id;
      tenant_id = identity.tenant_id;
      principal_id = identity.principal_id;
      root_directory_name = r.root_directory_name;
      bucket = r.bucket;
      destination_prefix = prefix;
      status = JobStatus.created;
      conflict_policy = policy;
      total_entries = 0;
      total_files = 0;
      total_directories = 0;
      total_bytes = pos 0;
      uploaded_files = 0;
      failed_files = 0;
      skipped_files = 0;
      requested_lifecycle = r.requested_lifecycle;
      effective_lifecycle = effective;
      expires_at = add_seconds w.now (get_session_expiry app.settings w.db);
      updated_at = w.now;
    }
    modify_db (λ db. record db { jobs = db.jobs ++ job ∷ []; next_id = db.next_id + 1 })
    pure job

  unfoldable pub get_job : ℕ → Action S DirectoryJob
  unfolding is_job
  get_job id w =
      or_raise (find (is_job id identity.tenant_id) w.db.jobs) directory_upload_not_found w

  -- `_transition`
  unfoldable pub move_to : DirectoryJob → JobStatus → Action S DirectoryJob
  unfolding transition write_job
  move_to j target = do
    lift (transition j.status target)
    w ← gets (λ w. w)
    let k : DirectoryJob = record j { status = target; updated_at = w.now }
    modify_db (saved_job k)
    pure k

  unfoldable pub aggregate_progress : DirectoryJob → Action S DirectoryJob
  unfolding aggregated write_job
  aggregate_progress j = do
    w ← gets (λ w. w)
    let k = aggregated w.db.entries j
    modify_db (saved_job k)
    pure k

  -- `session.get(DirectoryUploadEntry, entry_id)`, which must be one of the job
  unfoldable pub find_entry : ℕ → ℕ → Action S DirectoryEntry
  find_entry job_id entry_id w =
      or_raise (find (λ e. (e.id == entry_id) && (e.directory_upload_id == job_id)) w.db.entries)
        entry_not_found w

  unfoldable pub initiate_entry : ℕ → ℕ → Action S DirectoryEntry
  unfolding find_entry get_job move_to write_entry job_eq
  initiate_entry job_id entry_id = do
    e ← find_entry job_id entry_id
    j ← get_job job_id
    if job_eq j.status JobStatus.created then move_to j JobStatus.manifest_uploading else pure j
    let f : DirectoryEntry = record e {
      status = EntryStatus.uploading;
      attempt_count = e.attempt_count + 1;
    }
    modify_db (λ db. record db { entries = write_entry f db.entries })
    pure f

  unfoldable pub mark_entry_result :
      ℕ → ℕ → EntryStatus → Option ℕ → Option Text → Action S DirectoryEntry
  unfolding find_entry get_job aggregate_progress write_entry
  mark_entry_result job_id entry_id status file_id error_code = do
    e ← find_entry job_id entry_id
    j ← get_job job_id
    let f : DirectoryEntry = record e {
      status = status;
      file_id = file_id;
      error_code = error_code;
    }
    modify_db (λ db. record db { entries = write_entry f db.entries })
    aggregate_progress j
    pure f

  unfoldable pub retry : ℕ → Action S DirectoryJob
  unfolding get_job move_to job_eq
  retry id = do
    j ← get_job id
    raise_when
        (one_of (JobStatus.completed ∷ JobStatus.completed_with_errors ∷ JobStatus.cancelled ∷ [])
          j.status)
        upload_state_conflict
    move_to j JobStatus.uploading

  -- the part of `complete` for a job that is not completed
  unfoldable pub complete_job : DirectoryJob → Action S DirectoryJob
  unfolding move_to aggregate_progress count_entries_by_status job_eq
  complete_job j = do
    raise_when
        (not (one_of (JobStatus.uploading ∷ JobStatus.ready ∷ JobStatus.paused ∷ []) j.status))
        upload_state_conflict
    w ← gets (λ w. w)
    let failed = count_entries_by_status j.id EntryStatus.failed w.db.entries
    raise_when (ltb 0 failed) (directory_has_failed_entries failed)
    k ← move_to j JobStatus.finalizing
    l ← aggregate_progress k
    move_to l JobStatus.completed

  unfoldable pub complete : ℕ → Action S DirectoryJob
  unfolding get_job complete_job job_eq
  complete id = do
    j ← get_job id
    if job_eq j.status JobStatus.completed then pure j else complete_job j

  unfoldable pub cancel : ℕ → Action S DirectoryJob
  unfolding get_job move_to job_eq
  cancel id = do
    j ← get_job id
    raise_when (one_of (JobStatus.completed ∷ JobStatus.completed_with_errors ∷ []) j.status)
        upload_state_conflict
    k ← if job_eq j.status JobStatus.cancelled then pure j else move_to j JobStatus.cancelling
    move_to k JobStatus.cancelled
