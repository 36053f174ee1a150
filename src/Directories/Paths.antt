-- ===== src/Directories/Paths.antt =====
-- `add_entries` of app/services/directory_upload_service.py: the paths of a job stay distinct.
use pyupload_x.Base.{
  ℕ, ◌≡◌, refl, sym, subst, ◌∙◌, inl, inr, Bool, false, not, ◌&&◌, ◌||◌, List, [], ◌∷◌, ◌++◌, map,
  arith, ltb, ◌==◌, Bool-cases, length, find, any, Text, text_eq, text_eq_iff, contains_text,
}
use pyupload_x.Errors.{
  too_many_entries, duplicate_normalized_path, upload_state_conflict, directory_upload_not_found,
  exception, PyException,
}
use pyupload_x.Paths.{normalize_relative_path, join_prefix}
use pyupload_x.Db.Directories.{
  EntryType, JobStatus, DirectoryJob, DirectoryEntry, job_eq, entries_of, is_job,
}
use pyupload_x.Request.{World, Identity, App}
use pyupload_x.Uploads.Sound.Outcome.{after-raise_when, after-or_raise, after-lift, after-bind}
use pyupload_x.Directories.StateMachine.{transition}
use pyupload_x.Directories.Service.{one_of, saved_job, get_job, move_to}
use pyupload_x.Directories.Entries.{
  NewEntry, entry_type_of, counted, new_entry, with_entry, has_repeated_key, add_each, started,
  add_entries,
}

abbrev pub is_path : ℕ → Text → DirectoryEntry → Bool
is_path job_id path e = (e.directory_upload_id == job_id) && text_eq e.normalized_path path

-- no two entries of a job have one path
abbrev pub AreDistinctPaths : List DirectoryEntry → Type 0
AreDistinctPaths [] = Unit
AreDistinctPaths (e ∷ es) =
    (any (is_path e.directory_upload_id e.normalized_path) es ≡ false) × AreDistinctPaths es

text_eq_sym : (s t : Text) → text_eq s t ≡ text_eq t s
text_eq_sym s t = ground (arith, text_eq_iff s t, text_eq_iff t s)

any-path-append :
    (job_id : ℕ) (path : Text) (e : DirectoryEntry) (es : List DirectoryEntry)
    → any (is_path job_id path) (es ++ e ∷ [])
      ≡ (any (is_path job_id path) es || is_path job_id path e)
any-path-append job_id path e [] = ground arith
any-path-append job_id path e (f ∷ fs) = ground (arith, any-path-append job_id path e fs)

AreDistinctPaths-append :
    (e : DirectoryEntry) (es : List DirectoryEntry)
    → any (is_path e.directory_upload_id e.normalized_path) es ≡ false
    → AreDistinctPaths es
    → AreDistinctPaths (es ++ e ∷ [])
AreDistinctPaths-append e [] h k = (refl, tt)
AreDistinctPaths-append e (f ∷ fs) h k = (
  ground (
    arith,
    any-path-append f.directory_upload_id f.normalized_path e fs,
    k.0,
    text_eq_sym f.normalized_path e.normalized_path,
  ),
  AreDistinctPaths-append e fs (ground arith) k.1,
)

contains-paths :
    (job_id : ℕ) (path : Text) (es : List DirectoryEntry)
    → contains_text path (map (λ e. e.normalized_path) (entries_of job_id es))
      ≡ any (is_path job_id path) es
contains-paths job_id path [] = refl
contains-paths job_id path (e ∷ es) =
    ground (arith, contains-paths job_id path es, text_eq_sym path e.normalized_path)

counted-id : (r : NewEntry) (j : DirectoryJob) → (counted r j).id ≡ j.id
counted-id r j = ground arith

module _ {S : Type 0} (app : App S) (identity : Identity) where
  abbrev Distinct : World S → Type 0
  Distinct w = AreDistinctPaths w.db.entries

  -- `existing` holds the paths of the job
  abbrev Lists : List Text → ℕ → World S → Type 0
  Lists existing id w = (p : Text) → contains_text p existing ≡ any (is_path id p) w.db.entries

  Lists-more :
      (existing : List Text) (j : DirectoryJob) (r : NewEntry) (path key : Text) (type : EntryType)
      (w : World S)
      → Lists existing j.id w
      → Lists
          (path ∷ existing)
          j.id
          (record w { db = with_entry (new_entry j r path key type w.db.next_id) w.db })
  Lists-more existing j r path key type w h p = ground (
    arith,
    h p,
    text_eq_sym p path,
    any-path-append j.id p (new_entry j r path key type w.db.next_id) w.db.entries,
  )

  add_each-Distinct :
      (existing : List Text) (rs : List NewEntry) (j : DirectoryJob) (w : World S)
      → Lists existing j.id w
      → Distinct w
      → Distinct (add_each app identity existing rs j w).1
  unfolding add_each
  add_each-Distinct existing [] j w lists h = h
  add_each-Distinct existing (r ∷ rs) j w lists h =
      let limits = app.settings.directory_upload.limits in
      after-lift Distinct
        (normalize_relative_path app.nfc limits.maximum_path_depth
          limits.maximum_relative_path_bytes r.relative_path)
        _ w h
        (λ path _.
          after-raise_when Distinct (contains_text path existing) (duplicate_normalized_path path) _
            w h
            (λ fresh.
              after-lift Distinct (join_prefix app.nfc j.destination_prefix path) _ w h (λ key _.
                after-lift Distinct (entry_type_of r.entry_type) _ w h (λ type _.
                  add_each-Distinct (path ∷ existing) rs (counted r j)
                    (record w { db = with_entry (new_entry j r path key type w.db.next_id) w.db })
                    (subst
                      (λ (i : ℕ). Lists (path ∷ existing) i (record w {
                        db = with_entry (new_entry j r path key type w.db.next_id) w.db;
                      }))
                      (sym (counted-id r j)) (Lists-more existing j r path key type w lists))
                    (AreDistinctPaths-append (new_entry j r path key type w.db.next_id) w.db.entries
                      (sym (lists path) ∙ fresh) h)))))

  started-Distinct :
      (j : DirectoryJob) (w : World S) → Distinct w → Distinct (started app identity j w).1
  unfolding move_to
  started-Distinct j w h = elim (Bool-cases (job_eq j.status JobStatus.created)) [
    | inl e ↦
        rw e
          (after-lift Distinct (transition j.status JobStatus.manifest_uploading) _ w h (λ _ _. h))
    | inr e ↦ rw e h
  ]

  -- No request for entries, whether it returns or raises, makes two entries of a job have one
  -- normalised path, if no two had one before.
  pub add_entries-AreDistinctPaths :
      (job_id : ℕ) (entries : List NewEntry) (w : World S)
      → AreDistinctPaths w.db.entries
      → AreDistinctPaths (add_entries app identity job_id entries w).1.db.entries
  unfolding add_entries get_job
  add_entries-AreDistinctPaths job_id entries w h =
      let limit = app.settings.directory_upload.limits.maximum_entries_per_manifest_request in
      after-or_raise Distinct (find (is_job job_id identity.tenant_id) w.db.jobs)
        directory_upload_not_found _ w h
        (λ j _.
          after-raise_when Distinct
            (not (one_of (JobStatus.created ∷ JobStatus.manifest_uploading ∷ []) j.status))
            upload_state_conflict _ w h
            (λ _.
              after-bind Distinct (started app identity j) _ w (started-Distinct j w h) (λ k v d.
                after-raise_when Distinct (ltb limit (length entries)) too_many_entries _ v d (λ _.
                  let existing =
                    map (λ (e : DirectoryEntry). e.normalized_path)
                      (entries_of k.id v.db.entries) in
                  after-bind Distinct (add_each app identity existing entries k) _ v
                    (add_each-Distinct existing entries k v
                      (λ p. contains-paths k.id p v.db.entries) d)
                    (λ l x f.
                      let saved : World S = record x { db = saved_job l x.db } in
                      after-raise_when Distinct (has_repeated_key saved.db.entries)
                        (exception PyException.integrity_error) _ saved f (λ _. f))))))
