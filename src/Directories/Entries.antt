-- ===== src/Directories/Entries.antt =====
-- `add_entries` of app/services/directory_upload_service.py: the manifest of a job grows.
use pyupload_x.Base.{
  ℕ, ◌+◌, Bool, false, not, ◌&&◌, ◌||◌, Option, none, List, [], ◌∷◌, ◌++◌, map, ltb, ◌==◌,
  if◌then◌else◌, length, any, Text, codes, text_eq, contains_text,
}
use pyupload_x.Base.Int.{ℤ, ◌+ℤ◌}
use pyupload_x.Errors.{
  Result, ok, err, too_many_entries, duplicate_normalized_path, upload_state_conflict, exception,
  PyException,
}
use pyupload_x.Paths.{normalize_relative_path, join_prefix}
use pyupload_x.Db.{Db}
use pyupload_x.Db.Directories.{
  JobStatus, EntryType, EntryStatus, DirectoryJob, DirectoryEntry, job_eq, entries_of, write_job,
}
use pyupload_x.Request.{Identity, App, Action, pure, lift, gets, raise_when, modify_db, ◌>>=◌, ◌>>◌}
use pyupload_x.Directories.Service.{one_of, saved_job, get_job, move_to}

-- an entry of a request; missing fields have been given the source's defaults
pub record NewEntry : Type 0 where
  pub entry_type : Text
  pub relative_path : Text
  pub size_bytes : ℤ
  pub fingerprint : Option Text

-- `EntryType(entry_type)`
unfoldable pub entry_type_of : Text → Result EntryType
entry_type_of t =
    if text_eq t (codes "file")
    then ok EntryType.file
    else if text_eq t (codes "directory")
    then ok EntryType.directory
    else err (exception PyException.value_error)

abbrev pub counted : NewEntry → DirectoryJob → DirectoryJob
counted r j =
    if text_eq r.entry_type (codes "file")
    then record j {
      total_files = j.total_files + 1;
      total_bytes = j.total_bytes +ℤ r.size_bytes;
      total_entries = j.total_entries + 1;
    }
    else record j {
      total_directories = j.total_directories + 1;
      total_entries = j.total_entries + 1;
    }

-- the unique constraint of the table on a job and an object key
abbrev pub same_key : ℕ → Text → DirectoryEntry → Bool
same_key job_id key e = (e.directory_upload_id == job_id) && text_eq e.object_key key

abbrev pub has_repeated_key : List DirectoryEntry → Bool
has_repeated_key [] = false
has_repeated_key (e ∷ es) =
    any (same_key e.directory_upload_id e.object_key) es || has_repeated_key es

abbrev pub new_entry : DirectoryJob → NewEntry → Text → Text → EntryType → ℕ → DirectoryEntry
new_entry j r path key type id = record {
  id = id;
  directory_upload_id = j.id;
  entry_type = type;
  relative_path = r.relative_path;
  normalized_path = path;
  object_key = key;
  size_bytes = r.size_bytes;
  fingerprint = r.fingerprint;
  file_id = none;
  status = EntryStatus.pending;
  error_code = none;
  attempt_count = 0;
}

abbrev pub with_entry : DirectoryEntry → Db → Db
with_entry e db = record db { entries = db.entries ++ e ∷ []; next_id = db.next_id + 1 }

module _ {S : Type 0} (app : App S) (identity : Identity) where
  -- The loop: `existing` are the paths that are taken, and the job collects the counts.
  unfoldable pub add_each : List Text → List NewEntry → DirectoryJob → Action S DirectoryJob
  unfolding entry_type_of
  add_each existing [] j = pure j
  add_each existing (r ∷ rs) j = do
    let limits = app.settings.directory_upload.limits
    path ← lift (
        normalize_relative_path app.nfc limits.maximum_path_depth limits.maximum_relative_path_bytes
          r.relative_path)
    raise_when (contains_text path existing) (duplicate_normalized_path path)
    key ← lift (join_prefix app.nfc j.destination_prefix path)
    type ← lift (entry_type_of r.entry_type)
    w ← gets (λ w. w)
    modify_db (with_entry (new_entry j r path key type w.db.next_id))
    add_each (path ∷ existing) rs (counted r j)

  -- `flush`, where the unique constraint on the keys may be broken
  abbrev pub raise_when_repeated : Action S Unit
  raise_when_repeated w =
      raise_when (has_repeated_key w.db.entries) (exception PyException.integrity_error) w

  abbrev pub started : DirectoryJob → Action S DirectoryJob
  started j =
      if job_eq j.status JobStatus.created
      then move_to app identity j JobStatus.manifest_uploading
      else pure j

  -- Returns the number of entries that were added.
  unfoldable pub add_entries : ℕ → List NewEntry → Action S ℕ
  unfolding get_job job_eq add_each write_job
  add_entries job_id entries = do
    j ← get_job app identity job_id
    raise_when (not (one_of (JobStatus.created ∷ JobStatus.manifest_uploading ∷ []) j.status))
        upload_state_conflict
    k ← started j
    raise_when
        (ltb app.settings.directory_upload.limits.maximum_entries_per_manifest_request
          (length entries))
        too_many_entries
    w ← gets (λ w. w)
    l ← add_each (map (λ e. e.normalized_path) (entries_of k.id w.db.entries)) entries k
    modify_db (saved_job l)
    raise_when_repeated
    pure (length entries)
