-- ===== src/Directories/Outcome.antt =====
-- `complete` of app/services/directory_upload_service.py: from which states a job is completed.
use pyupload_x.Base.{
  ℕ, ◌≡◌, refl, ap, subst, ◌∙◌, ◌⊎◌, inl, inr, true, not, some, List, [], ◌∷◌, arith, ltb,
  Bool-cases, length, find,
}
use pyupload_x.Errors.{
  ok, directory_upload_not_found, upload_state_conflict, directory_has_failed_entries,
}
use pyupload_x.Db.Directories.{
  JobStatus, EntryStatus, DirectoryJob, DirectoryEntry, job_eq, is_job, count_entries_by_status,
  entries_of,
}
use pyupload_x.Request.{World, Identity, App}
use pyupload_x.Request.Laws.{or_raise-eq-ok, raise_when-eq-ok, bind-eq-ok}
use pyupload_x.Directories.StateMachine.{transition, transitions}
use pyupload_x.Directories.Service.{
  one_of, saved_job, get_job, move_to, aggregate_progress, aggregated, complete_job, complete,
}

transition-finalizing :
    (s t : JobStatus)
    → transition s JobStatus.finalizing ≡ ok t
    → (s ≡ JobStatus.uploading) × (t ≡ JobStatus.finalizing)
unfolding transition transitions job_eq
transition-finalizing s t h =
    elim s
        as (λ s.
          transition s JobStatus.finalizing ≡ ok t
          → (s ≡ JobStatus.uploading) × (t ≡ JobStatus.finalizing)) [
            | JobStatus.uploading ↦ λ h. (refl, ground arith)
            | JobStatus.created ↦ λ h. absurd (ground arith)
            | JobStatus.manifest_uploading ↦ λ h. absurd (ground arith)
            | JobStatus.ready ↦ λ h. absurd (ground arith)
            | JobStatus.paused ↦ λ h. absurd (ground arith)
            | JobStatus.finalizing ↦ λ h. absurd (ground arith)
            | JobStatus.completed ↦ λ h. absurd (ground arith)
            | JobStatus.cancelling ↦ λ h. absurd (ground arith)
            | JobStatus.cancelled ↦ λ h. absurd (ground arith)
            | JobStatus.completed_with_errors ↦ λ h. absurd (ground arith)
          ]
      h

job_eq-completed : (s : JobStatus) → job_eq s JobStatus.completed ≡ true → s ≡ JobStatus.completed
unfolding job_eq
job_eq-completed s h = ground arith

module _ {S : Type 0} (app : App S) (identity : Identity) where
  moved :
      (j : DirectoryJob) (target : JobStatus) (w : World S) (k : DirectoryJob) (v : World S)
      → move_to app identity j target w ≡ (ok k, v)
      → (transition j.status target ≡ ok target)
        × (k ≡ record j { status = target; updated_at = w.now })
        × (v.db.entries ≡ w.db.entries)
  unfolding move_to transition
  moved j target w k v h = (ground arith, ground arith, ground arith)

  abbrev pub Finished : World S → DirectoryJob → DirectoryJob → Type 0
  Finished w j k =
      (j.status ≡ JobStatus.uploading)
      × (count_entries_by_status j.id EntryStatus.failed w.db.entries ≡ 0)
      × (k.status ≡ JobStatus.completed)
      × (k.total_entries ≡ length (entries_of j.id w.db.entries))
      × (k.uploaded_files ≡ count_entries_by_status j.id EntryStatus.uploaded w.db.entries)

  completed-by :
      (w : World S) (j k : DirectoryJob) (w' : World S)
      → complete_job app identity j w ≡ (ok k, w')
      → Finished w j k
  unfolding complete_job aggregate_progress aggregated
  completed-by w j k w' h =
      let (_, h1) =
        raise_when-eq-ok
          (not (one_of (JobStatus.uploading ∷ JobStatus.ready ∷ JobStatus.paused ∷ []) j.status))
          upload_state_conflict _ w h in
      let failed = count_entries_by_status j.id EntryStatus.failed w.db.entries in
      let (none_failed, h2) =
        raise_when-eq-ok (ltb 0 failed) (directory_has_failed_entries failed) _ w h1 in
      let (a, v, first, h3) = bind-eq-ok (move_to app identity j JobStatus.finalizing) _ w h2 in
      let (allowed, made, entries) = moved j JobStatus.finalizing w a v first in
      let b = aggregated v.db.entries a in
      let (_, ends, _) = moved b JobStatus.completed (record v { db = saved_job b v.db }) k w' h3 in
      let same_id : a.id ≡ j.id = ap (λ (x : DirectoryJob). x.id) made in
      (
        (transition-finalizing j.status JobStatus.finalizing allowed).0,
        ground arith,
        ap (λ (x : DirectoryJob). x.status) ends,
        ap (λ (x : DirectoryJob). x.total_entries) ends
            ∙ ap (λ (i : ℕ). length (entries_of i v.db.entries)) same_id
            ∙ ap (λ (es : List DirectoryEntry). length (entries_of j.id es)) entries,
        ap (λ (x : DirectoryJob). x.uploaded_files) ends
            ∙ ap (λ (i : ℕ). count_entries_by_status i EntryStatus.uploaded v.db.entries) same_id
            ∙ ap (count_entries_by_status j.id EntryStatus.uploaded) entries,
      )

  -- A job that is completed by a request was either completed before, and then nothing changes, or was
  -- uploading, and none of its entries had failed; then its counts are those of its entries. A job that
  -- is ready or paused is not completed, although the code lets it pass its first check.
  pub complete-from :
      (id : ℕ) (w : World S) (j k : DirectoryJob) (w' : World S)
      → find (is_job id identity.tenant_id) w.db.jobs ≡ some j
      → complete app identity id w ≡ (ok k, w')
      → ((j.status ≡ JobStatus.completed) × (k ≡ j) × (w' ≡ w))
        ⊎ ((j.status ≡ JobStatus.uploading)
            × (count_entries_by_status j.id EntryStatus.failed w.db.entries ≡ 0)
            × (k.status ≡ JobStatus.completed)
            × (k.total_entries ≡ length (entries_of j.id w.db.entries))
            × (k.uploaded_files ≡ count_entries_by_status j.id EntryStatus.uploaded w.db.entries))
  unfolding complete get_job complete_job
  complete-from id w j k w' found h =
      let (j', found', h1) =
        or_raise-eq-ok (find (is_job id identity.tenant_id) w.db.jobs) directory_upload_not_found _
          w h in
      let same : j' ≡ j = ground arith in
      subst
        (λ (x : DirectoryJob).
          ((x.status ≡ JobStatus.completed) × (k ≡ x) × (w' ≡ w)) ⊎ Finished w x k)
        same
        (elim (Bool-cases (job_eq j'.status JobStatus.completed)) [
          | inl e ↦ inl (job_eq-completed j'.status e, ground arith, ground arith)
          | inr e ↦ inr (completed-by w j' k w' (ground arith))
        ])
