-- ===== src/Uploads/Ended/Ends.antt =====
-- app/services/upload_service.py and app/services/cleanup_service.py: completions, aborts and the expiry
-- of sessions leave a session that has ended as it is.
use pyupload_x.Base.{
  ℕ, ◌≡◌, refl, ◌∙◌, ◌≢◌, inl, inr, Option, none, some, List, arith, ltb, Bool-cases, length,
  contains, Text,
}
use pyupload_x.Errors.{Error, upload_not_found, upload_already_completed, missing_parts}
use pyupload_x.Lifecycle.StateMachine.{UploadStatus, transition_upload}
use pyupload_x.Db.Rows.{UploadSession, FileObject, nonempty}
use pyupload_x.Db.Uploads.{get_upload, save_upload}
use pyupload_x.Db.Files.{add_file}
use pyupload_x.Storage.{StoredObject}
use pyupload_x.Request.{World, Identity, App, ◌>>=◌}
use pyupload_x.Uploads.Parts.{get_session, storage_id_of}
use pyupload_x.Uploads.Complete.{
  complete, complete_or_return, complete_open, existing_file, reconciled, finish, file_row,
  committed_parts, missing_from, numbers_of,
}
use pyupload_x.Uploads.Complete.Checks.{ended_error, raise_ended, may_complete, is_completed}
use pyupload_x.Uploads.Finish.{
  abort, abort_open, abort_stored, is_gone, expire_upload_sessions, expire_row, overdue_ids,
}
use pyupload_x.Uploads.Sound.Endings.{any-id-expire, map-All-expire}
use pyupload_x.Uploads.Sound.Outcome.{
  after-raise_when, after-or_raise, after-lift, after-call, after-bind,
}
use pyupload_x.Uploads.Ended.{IsOver, HasEnded, save-HasEnded, live-other, add-HasEnded}

module _ {S : Type 0} (app : App S) (id : ℕ) (tenant : Text) where
  abbrev Over : World S → Type 0
  Over w = HasEnded id tenant w.db

  module _ (who : Identity) where
    finish-Over :
        (v : UploadSession) (stored : StoredObject) (w : World S)
        → v.id ≢ id
        → Over w
        → Over (finish app who v stored w).1
    unfolding finish
    finish-Over v stored w other h =
        after-lift Over (add_file (file_row app who v stored w.now) w.db) _ w h (λ fd e.
          save-HasEnded id tenant w.now
            (record v { status = UploadStatus.completed; completed_file_id = some fd.0.id }) fd.1
            other (add-HasEnded id tenant (file_row app who v stored w.now) w.db e h))

    complete_open-Over :
        (u : UploadSession) (w : World S) → u.id ≢ id → Over w → Over (complete_open app who u w).1
    unfolding complete_open
    complete_open-Over u w other h =
        let committed = committed_parts w.db u.id in
        after-raise_when Over (ltb (length committed) u.total_parts)
          (missing_parts (missing_from u.total_parts (numbers_of committed))) _ w h
          (λ _. after-lift Over (reconciled app who u committed w.store) _ w h (λ stored_parts _.
            after-lift Over (may_complete u.status) _ w h (λ _ _.
              let u1 : UploadSession = record u { status = UploadStatus.completing } in
              let w1 : World S = record w { db = save_upload w.now u1 w.db } in
              let kept : Over w1 = save-HasEnded id tenant w.now u1 w.db other h in
              after-call Over
                (app.storage.complete_multipart_upload u.bucket u.object_key (storage_id_of u)
                  stored_parts)
                _ w1 (λ _. kept)
                (λ stored s. finish-Over u1 stored (record w1 { store = s }) other kept))))

    pub complete-Over : (id' : ℕ) (w : World S) → Over w → Over (complete app who id' w).1
    unfolding complete get_session ended_error
    complete-Over id' w h =
        after-or_raise Over (get_upload w.db id' (some who.tenant_id)) upload_not_found _ w h
          (λ u e. returned u (existing_file app who u w.db) e)
      where
        going_on :
            (u : UploadSession) (o : Option Error)
            → (o ≡ none → u.id ≢ id)
            → Over ((raise_ended o >>= λ _. complete_open app who u) w).1
        going_on u none other = complete_open-Over u w (other refl) h
        going_on u (some e) other = h

        returned :
            (u : UploadSession) (o : Option FileObject)
            → get_upload w.db id' (some who.tenant_id) ≡ some u
            → Over (complete_or_return app who u o w).1
        returned u (some f) e = h
        returned u none e =
            going_on u (ended_error u.status)
              (λ live. live-other id id' tenant (some who.tenant_id) u w.db h e (ground arith))

    abort_stored-Over :
        (u : UploadSession) (o : Option Text) (w : World S)
        → Over w
        → Over (abort_stored app who u o w).1
    unfolding abort_stored
    abort_stored-Over u none w h = h
    abort_stored-Over u (some x) w h = h

    abort_open-Over :
        (u : UploadSession) (w : World S) → u.id ≢ id → Over w → Over (abort_open app who u w).1
    unfolding abort_open
    abort_open-Over u w other h =
        after-lift Over (transition_upload u.status UploadStatus.aborting) _ w h (λ _ _.
          let u1 : UploadSession = record u { status = UploadStatus.aborting } in
          let w1 : World S = record w { db = save_upload w.now u1 w.db } in
          after-bind Over (abort_stored app who u (nonempty u.storage_upload_id)) _ w1
            (abort_stored-Over u (nonempty u.storage_upload_id) w1
              (save-HasEnded id tenant w.now u1 w.db other h))
            (λ _ w2 k.
              save-HasEnded id tenant w.now
                (record u { status = UploadStatus.aborted; updated_at = w.now }) w2.db other k))

    pub abort-Over : (id' : ℕ) (w : World S) → Over w → Over (abort app who id' w).1
    unfolding abort get_session
    abort-Over id' w h =
        after-or_raise Over (get_upload w.db id' (some who.tenant_id)) upload_not_found _ w h
          (λ u e. after-raise_when Over (is_completed u.status) upload_already_completed _ w h (λ _.
            elim (Bool-cases (is_gone u.status)) [
              | inl gone ↦ rw gone h
              | inr live ↦ rw live (
                  abort_open-Over u w
                    (live-other id id' tenant (some who.tenant_id) u w.db h e live) h)
            ]))

  pub expire-Over :
      (batch_size : ℕ) (w : World S) → Over w → Over (expire_upload_sessions batch_size w).1
  unfolding expire_upload_sessions
  expire-Over batch_size w h =
      let ids = overdue_ids w.now batch_size w.db.uploads in
      record {
        over =
            map-All-expire (IsOver id tenant) w.now ids w.db.uploads (λ v k. expired ids v k)
              h.over;
        there = any-id-expire w.now ids id w.db.uploads ∙ h.there;
        old = h.old;
      }
    where
      expired :
          (ids : List ℕ) (v : UploadSession)
          → IsOver id tenant v
          → IsOver id tenant (expire_row w.now ids v)
      expired ids v k = elim (Bool-cases (contains v.id ids)) [
        | inl e ↦ rw e (λ same. ((k same).0, refl))
        | inr e ↦ rw e k
      ]
