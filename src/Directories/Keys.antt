-- ===== src/Directories/Keys.antt =====
-- `add_entries` of app/services/directory_upload_service.py: the object keys of a job stay distinct.
use pyupload_x.Base.{
  All, All-append, Option, some, ap, true, ℕ, ◌≡◌, refl, sym, subst, ◌∙◌, inl, inr, false, not,
  List, [], ◌∷◌, map, arith, ltb, ◌==◌, Bool-cases, length, find, any, Text, text_eq_iff,
  contains_text,
}
use pyupload_x.Errors.{
  Result, ok, err, too_many_entries, duplicate_normalized_path, upload_state_conflict,
  directory_upload_not_found, exception, PyException,
}
use pyupload_x.Paths.{strip_slashes, under, normalize_relative_path, join_prefix}
use pyupload_x.Db.Directories.{JobStatus, DirectoryJob, DirectoryEntry, job_eq, entries_of, is_job}
use pyupload_x.Request.{Action, ◌>>=◌, lift, World, Identity, App}
use pyupload_x.Uploads.Sound.Outcome.{after-raise_when, after-or_raise, after-lift, after-bind}
use pyupload_x.Directories.StateMachine.{transition}
use pyupload_x.Directories.Service.{one_of, saved_job, get_job, move_to}
use pyupload_x.Directories.Entries.{
  same_key, NewEntry, entry_type_of, counted, new_entry, with_entry, has_repeated_key, add_each,
  started, add_entries,
}
use pyupload_x.Paths.Normal.{NfcLaws}
use pyupload_x.Paths.Prefix.{under-injective, join_prefix-accepted}
use pyupload_x.Directories.Paths.{is_path, AreDistinctPaths, add_entries-AreDistinctPaths}

-- The key of an entry of a job is its normalised path below the job's prefix.
abbrev pub IsBelow : Text → ℕ → DirectoryEntry → Type 0
IsBelow prefix job_id e =
    e.directory_upload_id ≡ job_id → e.object_key ≡ under (strip_slashes prefix) e.normalized_path

-- no two entries of a job have one object key
abbrev pub AreDistinctKeys : ℕ → List DirectoryEntry → Type 0
AreDistinctKeys job_id [] = Unit
AreDistinctKeys job_id (e ∷ es) =
    ((e.directory_upload_id == job_id) ≡ true → any (same_key job_id e.object_key) es ≡ false)
    × AreDistinctKeys job_id es

any-key :
    (prefix : Text) (job_id : ℕ) (path : Text) (es : List DirectoryEntry)
    → All (IsBelow prefix job_id) es
    → any (is_path job_id path) es ≡ false
    → any (same_key job_id (under (strip_slashes prefix) path)) es ≡ false
any-key prefix job_id path [] below fresh = refl
any-key prefix job_id path (e ∷ es) below fresh =
    elim (Bool-cases (same_key job_id (under (strip_slashes prefix) path) e)) [
      | inr other ↦ ground (arith, any-key prefix job_id path es below.1 (ground arith))
      | inl taken ↦
          let key : e.object_key ≡ under (strip_slashes prefix) path =
            (text_eq_iff e.object_key (under (strip_slashes prefix) path)).0 (ground arith) in
          let same : e.normalized_path ≡ path =
            under-injective (strip_slashes prefix) e.normalized_path path
              (sym (below.0 (ground arith)) ∙ key) in
          let known = (text_eq_iff e.normalized_path path).1 same in absurd (ground arith)
    ]

-- Where the paths are distinct, the keys are.
AreDistinctKeys-below :
    (prefix : Text) (job_id : ℕ) (es : List DirectoryEntry)
    → All (IsBelow prefix job_id) es
    → AreDistinctPaths es
    → AreDistinctKeys job_id es
AreDistinctKeys-below prefix job_id [] below distinct = tt
AreDistinctKeys-below prefix job_id (e ∷ es) below distinct = (
  λ mine.
      let owner : e.directory_upload_id ≡ job_id = ground arith in
      subst (λ (k : Text). any (same_key job_id k) es ≡ false) (sym (below.0 owner))
        (any-key prefix job_id e.normalized_path es below.1
          (subst (λ (i : ℕ). any (is_path i e.normalized_path) es ≡ false) owner distinct.0)),
  AreDistinctKeys-below prefix job_id es below.1 distinct.1,
)

counted-prefix :
    (r : NewEntry) (j : DirectoryJob) → (counted r j).destination_prefix ≡ j.destination_prefix
counted-prefix r j = ground arith

module _ {S : Type 0} (app : App S) (identity : Identity) (prefix : Text) (id : ℕ) where
  abbrev Below : World S → Type 0
  Below w = All (IsBelow prefix id) w.db.entries

  add_each-Below :
      (existing : List Text) (rs : List NewEntry) (j : DirectoryJob) (w : World S)
      → NfcLaws app.nfc
      → j.destination_prefix ≡ prefix
      → Below w
      → Below (add_each app identity existing rs j w).1
  unfolding add_each
  add_each-Below existing [] j w laws of h = h
  add_each-Below existing (r ∷ rs) j w laws of h =
      let limits = app.settings.directory_upload.limits in
      after-lift Below
        (normalize_relative_path app.nfc limits.maximum_path_depth
          limits.maximum_relative_path_bytes r.relative_path)
        _ w h
        (λ path accepted.
          after-raise_when Below (contains_text path existing) (duplicate_normalized_path path) _ w
            h
            (λ fresh.
              after-lift Below (join_prefix app.nfc j.destination_prefix path) _ w h (λ key joined.
                after-lift Below (entry_type_of r.entry_type) _ w h (λ type _.
                  let key_of : key ≡ under (strip_slashes prefix) path =
                    join_prefix-accepted app.nfc prefix limits.maximum_path_depth
                      limits.maximum_relative_path_bytes r.relative_path path key laws accepted
                      (subst (λ (p : Text). join_prefix app.nfc p path ≡ ok key) of joined) in
                  add_each-Below (path ∷ existing) rs (counted r j)
                    (record w { db = with_entry (new_entry j r path key type w.db.next_id) w.db })
                    laws (counted-prefix r j ∙ of)
                    (All-append (IsBelow prefix id) w.db.entries
                      (new_entry j r path key type w.db.next_id ∷ []) h ((λ _. key_of), tt))))))

  after-started :
      {B : Type 0} (j : DirectoryJob) (f : DirectoryJob → Action S B) (w : World S)
      → Below w
      → ((k : DirectoryJob) (v : World S)
          → k.destination_prefix ≡ j.destination_prefix
          → Below v
          → Below (f k v).1)
      → Below ((started app identity j >>= f) w).1
  unfolding move_to
  after-started {B = B} j f w h k = elim (Bool-cases (job_eq j.status JobStatus.created)) [
    | inl e ↦ rw e (moved (transition j.status JobStatus.manifest_uploading))
    | inr e ↦ rw e (k j w refl h)
  ]
    where
      moved :
          {A : Type 0} (r : Result A)
          → Below
              (((lift r >>= λ _. (λ v.
                    let j' : DirectoryJob = record j {
                      status = JobStatus.manifest_uploading;
                      updated_at = v.now;
                    } in
                    (ok j', record v { db = saved_job j' v.db })))
                  >>= f)
                w).1
      moved (ok a) =
          let j' : DirectoryJob = record j {
            status = JobStatus.manifest_uploading;
            updated_at = w.now;
          } in
          k j' (record w { db = saved_job j' w.db }) refl h
      moved (err e) = h

  add_entries-Below :
      (job_id : ℕ) (entries : List NewEntry) (w : World S) (j : DirectoryJob)
      → NfcLaws app.nfc
      → find (is_job job_id identity.tenant_id) w.db.jobs ≡ some j
      → j.destination_prefix ≡ prefix
      → Below w
      → Below (add_entries app identity job_id entries w).1
  unfolding add_entries get_job
  add_entries-Below job_id entries w j laws found of h =
      let limit = app.settings.directory_upload.limits.maximum_entries_per_manifest_request in
      after-or_raise Below (find (is_job job_id identity.tenant_id) w.db.jobs)
        directory_upload_not_found _ w h
        (λ i there.
          let same : i ≡ j = some-injective (sym there ∙ found) in
          after-raise_when Below
            (not (one_of (JobStatus.created ∷ JobStatus.manifest_uploading ∷ []) i.status))
            upload_state_conflict _ w h
            (λ _. after-started i _ w h (λ k v kept d.
              after-raise_when Below (ltb limit (length entries)) too_many_entries _ v d (λ _.
                let existing =
                  map (λ (e : DirectoryEntry). e.normalized_path) (entries_of k.id v.db.entries) in
                after-bind Below (add_each app identity existing entries k) _ v
                  (add_each-Below existing entries k v laws
                    (kept ∙ ap (λ (x : DirectoryJob). x.destination_prefix) same ∙ of) d)
                  (λ l x f.
                    let saved : World S = record x { db = saved_job l x.db } in
                    after-raise_when Below (has_repeated_key saved.db.entries)
                      (exception PyException.integrity_error) _ saved f (λ _. f))))))
    where
      some-injective :
          {x y : DirectoryJob} → ◌≡◌ {A = Option DirectoryJob} (some x) (some y) → x ≡ y
      some-injective e = cc

-- A request for entries of a job, whether it returns or raises, makes no two of its entries have one
-- object key: if before the paths of the entries were distinct, and the key of each entry of the job
-- was its path below the job's prefix, then the keys are of this form afterwards and no two of the
-- job's are equal, so that the unique constraint on them does not stop the request. The function for
-- Unicode normalisation has the laws of `NfcLaws`.
pub add_entries-AreDistinctKeys :
    {S : Type 0} (app : App S) (identity : Identity) (job_id : ℕ) (entries : List NewEntry)
    (w : World S) (j : DirectoryJob)
    → NfcLaws app.nfc
    → find (is_job job_id identity.tenant_id) w.db.jobs ≡ some j
    → AreDistinctPaths w.db.entries
    → All (IsBelow j.destination_prefix j.id) w.db.entries
    → All
        (IsBelow j.destination_prefix j.id)
        (add_entries app identity job_id entries w).1.db.entries
      × AreDistinctKeys j.id (add_entries app identity job_id entries w).1.db.entries
add_entries-AreDistinctKeys app identity job_id entries w j laws found distinct below =
    let kept =
      add_entries-Below app identity j.destination_prefix j.id job_id entries w j laws found refl
        below in
    (
      kept,
      AreDistinctKeys-below j.destination_prefix j.id
          (add_entries app identity job_id entries w).1.db.entries kept
          (add_entries-AreDistinctPaths app identity job_id entries w distinct),
    )
