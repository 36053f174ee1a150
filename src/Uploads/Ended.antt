-- ===== src/Uploads/Ended.antt =====
-- app/services/upload_service.py: a session that was aborted or has expired, in the tables.
pub mod Parts
pub mod Ends
pub mod Runs
use pyupload_x.Base.{
  ℕ, zero, suc, ◌+◌, ◌-◌, ◌*◌, ◌/◌, ◌%◌, ◌^◌, ◌≤◌, ◌<◌, min, max, String, ◌≡◌, refl, sym, ap, subst,
  ◌∙◌, ◌≢◌, ◌↔◌, ◌⊎◌, inl, inr, Bool, true, false, not, ◌&&◌, ◌||◌, Option, none, some, List, [],
  ◌∷◌, ◌++◌, map, arith, ltb, leb, ◌==◌, if◌then◌else◌, ltb→lt, ltb→le, lt→ltb, leb→le, ==_iff,
  ==_refl, Bool-cases, Option-cases, length, take, drop, select, find, any, all, All, length-append,
  length-take, length-drop, take-append-drop, take-all, drop-all, drop-drop, All-append,
  length-select-le, contains, range, length-range, length-map, Text, codes, text_eq, text_eq_refl,
  text_eq→eq, text_eq_iff, contains_text, starts_with, utf8_width, utf8_length,
}
use pyupload_x.Base.Int.{
  ℤ, pos, negsuc, pos_part, neg_part, sub_ℕ, ◌+ℤ◌, ◌-ℤ◌, ◌≤ℤ◌, leb_ℤ, ltb_ℤ, min_ℤ, max_ℤ, int_laws,
}
use pyupload_x.Errors.{
  Error, Result, ok, err, upload_not_found, upload_state_conflict, upload_expired, refresh_disabled,
  upload_already_completed, invalid_part_number, invalid_part_size, missing_parts,
}
use pyupload_x.Lifecycle.Mode.{Time, seconds}
use pyupload_x.Lifecycle.StateMachine.{UploadStatus, transition_upload}
use pyupload_x.Db.{Db}
use pyupload_x.Db.Rows.{UploadSession, UploadPart, FileObject, nonempty, UploadMode}
use pyupload_x.Db.Uploads.{is_upload, get_upload, Dialect, write_upload, save_upload, upsert_part}
use pyupload_x.Db.Files.{add_file}
use pyupload_x.Storage.{Bytes, StoredObject}
use pyupload_x.Request.{World, Identity, App, Action, route, settle, ◌>>=◌}
use pyupload_x.Request.Settings.{get_session_expiry}
use pyupload_x.Uploads.Plan.{NewUpload, plan}
use pyupload_x.Uploads.Create.{
  create_session, initiate, add_upload, new_row, is_presigned, add_seconds,
}
use pyupload_x.Uploads.Parts.{
  get_session, inactive_error, is_part_number, part_offset, start_uploading, record_part,
  proxy_upload_part, commit_part, too_small, is_initiated, storage_id_of,
}
use pyupload_x.Uploads.Complete.{
  complete, complete_or_return, complete_open, existing_file, reconciled, finish, file_row,
  committed_parts, missing_from, numbers_of, resume,
}
use pyupload_x.Uploads.Complete.Checks.{ended_error, raise_ended, may_complete, is_completed}
use pyupload_x.Uploads.Finish.{
  abort, abort_open, abort_stored, is_gone, is_finished, refresh, expire_upload_sessions,
  expire_row, overdue_ids,
}
use pyupload_x.Uploads.Sound.{IsSound}
use pyupload_x.Uploads.Sound.PartRows.{upsert_part-same}
use pyupload_x.Uploads.Sound.Rows.{
  find-All, find-test, find_unique, find-any-id, any-id-write, write_upload-All,
}
use pyupload_x.Uploads.Sound.Endings.{any-id-expire, map-All-expire}
use pyupload_x.Uploads.Sound.Outcome.{
  after-raise_when, after-raise_some, after-or_raise, after-lift, after-call, after-bind,
}
use pyupload_x.Uploads.Sound.Runs.{
  Step, creates, puts, commits, resumes, completes, aborts, refreshes, expires, passes, Run, done,
  after,
}

-- The row of a key is of the tenant, and its session was aborted or has expired.
abbrev pub IsOver : ℕ → Text → UploadSession → Type 0
IsOver id tenant v = v.id ≡ id → (v.tenant_id ≡ tenant) × (is_gone v.status ≡ true)

pub record HasEnded (id : ℕ) (tenant : Text) (db : Db) : Type 0 where
  pub over : All (IsOver id tenant) db.uploads
  pub there : any (λ v. v.id == id) db.uploads ≡ true
  pub old : id < db.next_id

found-over :
    (id : ℕ) (tenant : Text) (us : List UploadSession)
    → All (IsOver id tenant) us
    → any (λ v. v.id == id) us ≡ true
    → (u : UploadSession) × (find (is_upload id (some tenant)) us ≡ some u)
      × (is_gone u.status ≡ true)
unfolding is_upload
found-over id tenant [] h k = cc
found-over id tenant (v ∷ us) h k = elim (Bool-cases (v.id == id)) [
  | inl e ↦
      let (owner, gone) = h.0 (ground arith) in
      (v, rw (e, (text_eq_iff v.tenant_id tenant).1 owner) refl, gone)
  | inr e ↦
      let (u, found, gone) = found-over id tenant us h.1 (ground arith) in (u, rw e found, gone)
]

-- The row that the tenant's requests find.
pub HasEnded-found :
    (id : ℕ) (tenant : Text) (db : Db)
    → HasEnded id tenant db
    → (u : UploadSession) × (get_upload db id (some tenant) ≡ some u) × (is_gone u.status ≡ true)
unfolding get_upload
HasEnded-found id tenant db h = found-over id tenant db.uploads h.over h.there

found-owner :
    (id : ℕ) (tenant : Text) (u : UploadSession)
    → is_upload id (some tenant) u ≡ true
    → (u.id ≡ id) × (u.tenant_id ≡ tenant)
unfolding is_upload
found-owner id tenant u h = (ground arith, ground (arith, text_eq_iff u.tenant_id tenant))

-- A session of sound tables that is found over has ended.
pub found-HasEnded :
    (id : ℕ) (tenant : Text) (db : Db) (u : UploadSession)
    → IsSound db
    → get_upload db id (some tenant) ≡ some u
    → is_gone u.status ≡ true
    → HasEnded id tenant db
unfolding get_upload
found-HasEnded id tenant db u sound found gone =
    let (same, owner) =
      found-owner id tenant u (find-test (is_upload id (some tenant)) db.uploads found) in
    record {
      over =
          subst (λ (k : ℕ). All (IsOver k tenant) db.uploads) same
            (find_unique (λ v. (v.tenant_id ≡ tenant) × (is_gone v.status ≡ true))
              (is_upload id (some tenant)) db.uploads sound.distinct found (owner, gone));
      there =
          subst (λ (k : ℕ). any (λ v. v.id == k) db.uploads ≡ true) same
            (find-any-id (is_upload id (some tenant)) db.uploads u found);
      old =
          subst (λ (k : ℕ). k < db.next_id) same
            (find-All (λ v. v.id < db.next_id) (is_upload id (some tenant)) db.uploads
              sound.old_uploads found);
    }

-- The row of another session may be written.
pub save-HasEnded :
    (id : ℕ) (tenant : Text) (now : Time) (u : UploadSession) (db : Db)
    → u.id ≢ id
    → HasEnded id tenant db
    → HasEnded id tenant (save_upload now u db)
unfolding save_upload
save-HasEnded id tenant now u db other h = record {
  over = write_upload-All (IsOver id tenant) now u db.uploads (λ e. absurd (other e)) h.over;
  there = any-id-write now id u db.uploads ∙ h.there;
  old = h.old;
}

pub upsert-HasEnded :
    (id : ℕ) (tenant : Text) (dialect : Dialect) (p : UploadPart) (db : Db)
    → HasEnded id tenant db
    → HasEnded id tenant (upsert_part dialect p db)
upsert-HasEnded id tenant dialect p db h =
    let (uploads, next, _) = upsert_part-same p db dialect in
    record { over = rw uploads h.over; there = rw uploads h.there; old = rw next h.old }

pub live-other :
    (id id' : ℕ) (tenant : Text) (who : Option Text) (u : UploadSession) (db : Db)
    → HasEnded id tenant db
    → get_upload db id' who ≡ some u
    → is_gone u.status ≡ false
    → u.id ≢ id
unfolding get_upload
live-other id id' tenant who u db h found live same =
    let (_, gone) = find-All (IsOver id tenant) (is_upload id' who) db.uploads h.over found same in
    cc

pub add-HasEnded :
    (id : ℕ) (tenant : Text) (f : FileObject) (db : Db) {g : FileObject} {db' : Db}
    → add_file f db ≡ ok (g, db')
    → HasEnded id tenant db
    → HasEnded id tenant db'
unfolding add_file
add-HasEnded id tenant f db {g} {db'} e h =
    let uploads : db'.uploads ≡ db.uploads = ground arith in
    let next : db'.next_id ≡ db.next_id + 1 = ground arith in
    record {
      over = rw uploads h.over;
      there = rw uploads h.there;
      old = rw next (omega (arith, h.old));
    }

pub any-append :
    (t : UploadSession → Bool) (us : List UploadSession) (v : UploadSession)
    → any t us ≡ true
    → any t (us ++ v ∷ []) ≡ true
any-append t [] v h = cc
any-append t (u ∷ us) v h = ground (arith, any-append t us v)
