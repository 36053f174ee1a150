-- ===== src/Tests/Directories.antt =====
-- A directory job that takes entries and is completed, and an outbox that is delivered.
use pyupload_x.Base.{
  ℕ, ◌≤◌, ◌≡◌, refl, ◌⊎◌, false, none, some, List, [], ◌∷◌, arith, find, All, codes, text_eq,
  utf8_width, utf8_length,
}
use pyupload_x.Base.Int.{pos}
use pyupload_x.Errors.{ok}
use pyupload_x.Db.{Db}
use pyupload_x.Db.Directories.{JobStatus, DirectoryJob, is_job}
use pyupload_x.Request.{World}
use pyupload_x.Paths.{normalize_relative_path, strip_slashes, join_prefix}
use pyupload_x.Lifecycle.Policy.{compute_effective_lifecycle}
use pyupload_x.Request.Settings.{get_session_expiry, get_lifecycle_default}
use pyupload_x.Directories.Service.{NewJob, create_job, complete}
use pyupload_x.Directories.Entries.{NewEntry, add_entries}
use pyupload_x.Directories.Paths.{AreDistinctPaths, add_entries-AreDistinctPaths}
use pyupload_x.Directories.Outcome.{Finished, complete-from}
use pyupload_x.Db.Rows.{WebhookStatus}
use pyupload_x.Webhooks.Delivery.{deliver_due}
use pyupload_x.Webhooks.Attempts.{IsBounded, Tried, deliver_due-Tried}
use pyupload_x.Directories.Keys.{IsBelow, AreDistinctKeys, add_entries-AreDistinctKeys}
use pyupload_x.Tests.Texts.{same-NfcLaws}
use pyupload_x.Tests.Samples.{app, who, start}

abbrev new_job : NewJob
new_job = record {
  root_directory_name = codes "d";
  bucket = codes "b";
  destination_prefix = codes "/p/";
  conflict_policy = [];
  requested_lifecycle = none;
}

abbrev with_job : World ℕ
with_job = (create_job app who new_job start).1

abbrev new_entries : List NewEntry
new_entries =
    record {
      entry_type = codes "file";
      relative_path = codes "a/c";
      size_bytes = pos 3;
      fingerprint = none;
    }
    ∷ record {
      entry_type = codes "directory";
      relative_path = codes "a";
      size_bytes = pos 0;
      fingerprint = none;
    }
    ∷ []

add_entries-AreDistinctPaths_example :
    AreDistinctPaths (add_entries app who 0 new_entries with_job).1.db.entries
unfolding create_job add_entries complete is_job normalize_relative_path text_eq utf8_length
    utf8_width get_session_expiry strip_slashes compute_effective_lifecycle get_lifecycle_default
    join_prefix
add_entries-AreDistinctPaths_example =
    add_entries-AreDistinctPaths app who 0 new_entries with_job tt

abbrev job_in : World ℕ → DirectoryJob
job_in w = elim w.db.jobs [
  | [] ↦ record {
    id = 0;
    tenant_id = [];
    principal_id = [];
    root_directory_name = [];
    bucket = [];
    destination_prefix = [];
    status = JobStatus.created;
    conflict_policy = [];
    total_entries = 0;
    total_files = 0;
    total_directories = 0;
    total_bytes = pos 0;
    uploaded_files = 0;
    failed_files = 0;
    skipped_files = 0;
    requested_lifecycle = none;
    effective_lifecycle = none;
    expires_at = 0;
    updated_at = 0;
  }
  | j ∷ js ↦ j
]

with_job_found : find (is_job 0 who.tenant_id) with_job.db.jobs ≡ some (job_in with_job)
unfolding create_job is_job normalize_relative_path text_eq utf8_length utf8_width
    get_session_expiry strip_slashes compute_effective_lifecycle get_lifecycle_default
with_job_found = refl

no_entries : with_job.db.entries ≡ []
unfolding create_job is_job normalize_relative_path text_eq utf8_length utf8_width
    get_session_expiry strip_slashes compute_effective_lifecycle get_lifecycle_default
no_entries = refl

add_entries-AreDistinctKeys_example :
    All
      (IsBelow (job_in with_job).destination_prefix (job_in with_job).id)
      (add_entries app who 0 new_entries with_job).1.db.entries
    × AreDistinctKeys (job_in with_job).id (add_entries app who 0 new_entries with_job).1.db.entries
add_entries-AreDistinctKeys_example =
    add_entries-AreDistinctKeys app who 0 new_entries with_job (job_in with_job) same-NfcLaws
      with_job_found (rw no_entries tt) (rw no_entries tt)

abbrev going : World ℕ
going =
    let w = (add_entries app who 0 new_entries with_job).1 in
    record w { db = record w.db { jobs = record (job_in w) { status = JobStatus.uploading } ∷ [] } }

abbrev over : World ℕ
over = (complete app who 0 going).1

going_found : find (is_job 0 who.tenant_id) going.db.jobs ≡ some (job_in going)
unfolding create_job add_entries complete is_job normalize_relative_path text_eq utf8_length
    utf8_width get_session_expiry strip_slashes compute_effective_lifecycle get_lifecycle_default
    join_prefix
going_found = refl

going_completed : complete app who 0 going ≡ (ok (job_in over), over)
unfolding create_job add_entries complete is_job normalize_relative_path text_eq utf8_length
    utf8_width get_session_expiry strip_slashes compute_effective_lifecycle get_lifecycle_default
    join_prefix
going_completed = refl

complete-from_example :
    (((job_in going).status ≡ JobStatus.completed) × (job_in over ≡ job_in going) × (over ≡ going))
    ⊎ Finished app who going (job_in going) (job_in over)
complete-from_example =
    complete-from app who 0 going (job_in going) (job_in over) over going_found going_completed

abbrev waiting : Db
waiting = record start.db {
  outbox =
      record {
        id = 0;
        tenant_id = [];
        event_type = [];
        file_id = 0;
        status = WebhookStatus.pending;
        attempts = 4;
        next_attempt_at = 0;
      }
      ∷ [];
}

deliver_due-Tried_example :
    ((deliver_due (λ m. false) (some (codes "u")) 9 5 7 waiting).0 ≤ 9)
    × Tried 5 7 waiting.outbox (deliver_due (λ m. false) (some (codes "u")) 9 5 7 waiting).1.outbox
    × All (IsBounded 5) (deliver_due (λ m. false) (some (codes "u")) 9 5 7 waiting).1.outbox
deliver_due-Tried_example =
    deliver_due-Tried (λ m. false) 5 7 (some (codes "u")) 9 waiting
      ((omega arith, λ _. omega arith), tt)
