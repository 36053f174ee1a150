-- ===== src/Uploads/Sound/Endings.antt =====
-- Sessions that are completed, aborted or expired stay sound.
use pyupload_x.Base.{
  ℕ, ◌<◌, ◌≡◌, refl, inl, inr, Option, none, some, List, [], ◌∷◌, map, arith, ltb, ◌==◌, Bool-cases,
  length, any, All, contains, Text,
}
use pyupload_x.Errors.{Error, upload_not_found, upload_already_completed, missing_parts}
use pyupload_x.Lifecycle.Mode.{Time}
use pyupload_x.Lifecycle.StateMachine.{UploadStatus, transition_upload}
use pyupload_x.Db.Rows.{UploadSession, UploadPart, FileObject, nonempty}
use pyupload_x.Db.Uploads.{get_upload, save_upload}
use pyupload_x.Db.Files.{add_file}
use pyupload_x.Storage.{StoredObject}
use pyupload_x.Request.{World, Identity, App, ◌>>=◌}
use pyupload_x.Uploads.Parts.{get_session, storage_id_of}
use pyupload_x.Uploads.Complete.{
  complete, complete_or_return, complete_open, existing_file, reconciled, finish, file_row,
  committed_parts, missing_from, numbers_of,
}
use pyupload_x.Uploads.Complete.Checks.{ended_error, raise_ended, may_complete, is_completed}
use pyupload_x.Uploads.Finish.{
  abort, abort_open, abort_stored, is_gone, expire_upload_sessions, expire_row, overdue_ids,
}
use pyupload_x.Uploads.Sound.{IsSound, IsPartOf, AreDistinct}
use pyupload_x.Uploads.Sound.Known.{IsKnown, save_upload-keeps}
use pyupload_x.Uploads.Sound.Rows.{SameShape, IsPartOf-shape}
use pyupload_x.Uploads.Sound.Steps.{Sound, Keeps, found-IsKnown}
use pyupload_x.Uploads.Sound.Sessions.{add_file-keeps}
use pyupload_x.Uploads.Sound.Outcome.{
  after-raise_when, after-or_raise, after-lift, after-call, after-bind,
}

module _ {S : Type 0} (app : App S) (identity : Identity) where
  abort_stored-Keeps :
      (u : UploadSession) (id : Option Text) (w : World S)
      → Keeps u w
      → Keeps u (abort_stored app identity u id w).1
  unfolding abort_stored
  abort_stored-Keeps u none w h = h
  abort_stored-Keeps u (some id) w h = h

  abort_open-Sound :
      (u : UploadSession) (w : World S) → Keeps u w → IsSound (abort_open app identity u w).1.db
  unfolding abort_open
  abort_open-Sound u w h =
      after-lift Sound (transition_upload u.status UploadStatus.aborting) _ w h.0 (λ _ _.
        let u1 : UploadSession = record u { status = UploadStatus.aborting } in
        let w1 : World S = record w { db = save_upload w.now u1 w.db } in
        let kept : Keeps u w1 = save_upload-keeps w.now u u1 w.db (refl, refl, refl) h in
        (after-bind (Keeps u) (abort_stored app identity u (nonempty u.storage_upload_id)) _ w1
          (abort_stored-Keeps u (nonempty u.storage_upload_id) w1 kept)
          (λ _ w2 k.
            save_upload-keeps w.now u
              (record u { status = UploadStatus.aborted; updated_at = w.now }) w2.db
              (refl, refl, refl) k)).0)

  pub abort-IsSound : (id : ℕ) (w : World S) → IsSound w.db → IsSound (abort app identity id w).1.db
  unfolding abort get_session
  abort-IsSound id w h =
      after-or_raise Sound (get_upload w.db id (some identity.tenant_id)) upload_not_found _ w h
        (λ u e.
          let known = found-IsKnown id (some identity.tenant_id) u w.db e h in
          after-raise_when Sound (is_completed u.status) upload_already_completed _ w h (λ _.
            elim (Bool-cases (is_gone u.status)) [
              | inl gone ↦ rw gone h
              | inr live ↦ rw live (abort_open-Sound u w (h, known))
            ]))

  finish-Keeps :
      (u v : UploadSession) (stored : StoredObject) (w : World S)
      → SameShape u v
      → Keeps u w
      → Keeps u (finish app identity v stored w).1
  unfolding finish
  finish-Keeps u v stored w same h =
      after-lift (Keeps u) (add_file (file_row app identity v stored w.now) w.db) _ w h (λ fd e.
        save_upload-keeps w.now u
          (record v { status = UploadStatus.completed; completed_file_id = some fd.0.id }) fd.1 same
          (add_file-keeps (file_row app identity v stored w.now) u w.db e h))

  complete_open-Sound :
      (u : UploadSession) (w : World S) → Keeps u w → IsSound (complete_open app identity u w).1.db
  unfolding complete_open
  complete_open-Sound u w h =
      let committed = committed_parts w.db u.id in
      after-raise_when Sound (ltb (length committed) u.total_parts)
        (missing_parts (missing_from u.total_parts (numbers_of committed))) _ w h.0
        (λ _.
          after-lift Sound (reconciled app identity u committed w.store) _ w h.0 (λ stored_parts _.
            after-lift Sound (may_complete u.status) _ w h.0 (λ _ _.
              let u1 : UploadSession = record u { status = UploadStatus.completing } in
              let w1 : World S = record w { db = save_upload w.now u1 w.db } in
              let kept : Keeps u w1 = save_upload-keeps w.now u u1 w.db (refl, refl, refl) h in
              after-call Sound
                (app.storage.complete_multipart_upload u.bucket u.object_key (storage_id_of u)
                  stored_parts)
                _ w1 (λ _. kept.0)
                (λ stored s.
                  (finish-Keeps u u1 stored (record w1 { store = s }) (refl, refl, refl) kept).0))))

  pub complete-IsSound :
      (id : ℕ) (w : World S) → IsSound w.db → IsSound (complete app identity id w).1.db
  unfolding complete get_session
  complete-IsSound id w h =
      after-or_raise Sound (get_upload w.db id (some identity.tenant_id)) upload_not_found _ w h
        (λ u e.
          returned u (existing_file app identity u w.db)
            (found-IsKnown id (some identity.tenant_id) u w.db e h))
    where
      ended :
          (u : UploadSession) (o : Option Error)
          → IsKnown u w.db
          → IsSound ((raise_ended o >>= λ _. complete_open app identity u) w).1.db
      ended u none known = complete_open-Sound u w (h, known)
      ended u (some e) known = h

      returned :
          (u : UploadSession) (o : Option FileObject)
          → IsKnown u w.db
          → IsSound (complete_or_return app identity u o w).1.db
      returned u (some f) known = h
      returned u none known = ended u (ended_error u.status) known

-- The sweep of overdue sessions changes their status and times only.
pub any-id-expire :
    (now : Time) (ids : List ℕ) (id : ℕ) (us : List UploadSession)
    → any (λ v. v.id == id) (map (expire_row now ids) us) ≡ any (λ v. v.id == id) us
any-id-expire now ids id [] = refl
any-id-expire now ids id (v ∷ us) = ground (arith, any-id-expire now ids id us)

AreDistinct-expire :
    (now : Time) (ids : List ℕ) (us : List UploadSession)
    → AreDistinct us
    → AreDistinct (map (expire_row now ids) us)
AreDistinct-expire now ids [] h = tt
AreDistinct-expire now ids (v ∷ us) h = elim (Bool-cases (contains v.id ids)) [
  | inl e ↦ rw e (rw (any-id-expire now ids v.id us) h.0, AreDistinct-expire now ids us h.1)
  | inr e ↦ rw e (rw (any-id-expire now ids v.id us) h.0, AreDistinct-expire now ids us h.1)
]

pub map-All-expire :
    (P : UploadSession → Type 0) (now : Time) (ids : List ℕ) (us : List UploadSession)
    → ((v : UploadSession) → P v → P (expire_row now ids v))
    → All P us
    → All P (map (expire_row now ids) us)
map-All-expire P now ids [] k h = tt
map-All-expire P now ids (v ∷ us) k h = (k v h.0, map-All-expire P now ids us k h.1)

pub expire_upload_sessions-IsSound :
    {S : Type 0} (batch_size : ℕ) (w : World S)
    → IsSound w.db
    → IsSound (expire_upload_sessions batch_size w).1.db
unfolding expire_upload_sessions
expire_upload_sessions-IsSound batch_size w h =
    let ids = overdue_ids w.now batch_size w.db.uploads in
    record {
      distinct = AreDistinct-expire w.now ids w.db.uploads h.distinct;
      unique = h.unique;
      parts =
          map-All-expire (λ u. All (IsPartOf u) w.db.parts) w.now ids w.db.uploads
            (λ v k. same_parts ids v w.db.parts k) h.parts;
      old_uploads =
          map-All-expire (λ u. u.id < w.db.next_id) w.now ids w.db.uploads (λ v k. same_id ids v k)
            h.old_uploads;
      old_parts = h.old_parts;
      old_files = h.old_files;
    }
  where
    same_parts :
        (ids : List ℕ) (v : UploadSession) (ps : List UploadPart)
        → All (IsPartOf v) ps
        → All (IsPartOf (expire_row w.now ids v)) ps
    same_parts ids v ps k =
        IsPartOf-shape v (expire_row w.now ids v) ps (ground arith, ground arith, ground arith) k

    same_id :
        (ids : List ℕ) (v : UploadSession)
        → v.id < w.db.next_id
        → (expire_row w.now ids v).id < w.db.next_id
    same_id ids v k = ground arith
