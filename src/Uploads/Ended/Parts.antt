-- ===== src/Uploads/Ended/Parts.antt =====
-- app/services/upload_service.py: requests for parts, sessions and their times leave a session that has
-- ended as it is.
use pyupload_x.Base.{
  ℕ, ◌+◌, ◌≢◌, inl, inr, not, ◌||◌, Option, some, [], ◌∷◌, arith, ltb, ◌==◌, Bool-cases, All-append,
  Text,
}
use pyupload_x.Base.Int.{ℤ, pos, pos_part}
use pyupload_x.Errors.{
  upload_not_found, upload_state_conflict, upload_expired, refresh_disabled, invalid_part_number,
  invalid_part_size,
}
use pyupload_x.Lifecycle.Mode.{seconds}
use pyupload_x.Lifecycle.StateMachine.{UploadStatus}
use pyupload_x.Db.Rows.{UploadSession, UploadPart, UploadMode}
use pyupload_x.Db.Uploads.{get_upload, save_upload, upsert_part}
use pyupload_x.Storage.{Bytes}
use pyupload_x.Request.{World, Identity, App, Action, ◌>>=◌}
use pyupload_x.Request.Settings.{get_session_expiry}
use pyupload_x.Uploads.Plan.{NewUpload, plan}
use pyupload_x.Uploads.Create.{
  create_session, initiate, add_upload, new_row, is_presigned, add_seconds,
}
use pyupload_x.Uploads.Parts.{
  get_session, inactive_error, is_part_number, start_uploading, record_part, proxy_upload_part,
  commit_part, too_small, is_initiated, storage_id_of,
}
use pyupload_x.Uploads.Complete.{listed_numbers, resume}
use pyupload_x.Uploads.Complete.Checks.{ended_error}
use pyupload_x.Uploads.Finish.{is_finished, refresh}
use pyupload_x.Uploads.Sound.Outcome.{
  after-raise_when, after-raise_some, after-or_raise, after-lift, after-call, after-bind,
}
use pyupload_x.Uploads.Ended.{
  IsOver, HasEnded, save-HasEnded, upsert-HasEnded, live-other, any-append,
}

module _ {S : Type 0} (app : App S) (id : ℕ) (tenant : Text) where
  abbrev Over : World S → Type 0
  Over w = HasEnded id tenant w.db

  module _ (who : Identity) where
    record_part-Over :
        (u : UploadSession) (p : UploadPart) (w : World S)
        → u.id ≢ id
        → Over w
        → Over (record_part app who u p w).1
    unfolding record_part
    record_part-Over u p w other h =
        save-HasEnded id tenant w.now u (upsert_part app.dialect p w.db) other
          (upsert-HasEnded id tenant app.dialect p w.db h)

    pub commit_part-Over :
        (id' : ℕ) (n : ℤ) (etag : Text) (size : ℤ) (checksum : Option Text) (w : World S)
        → Over w
        → Over (commit_part app who id' n etag size checksum w).1
    unfolding commit_part get_session inactive_error
    commit_part-Over id' n etag size checksum w h =
        after-or_raise Over (get_upload w.db id' (some who.tenant_id)) upload_not_found _ w h
          (λ u e. after-raise_some Over (inactive_error u.status) _ w h (λ live.
            after-raise_when Over (not (is_part_number n u.total_parts))
              (invalid_part_number n u.total_parts) _ w h
              (λ _.
                record_part-Over u _ w
                  (live-other id id' tenant (some who.tenant_id) u w.db h e (ground arith)) h)))

    start_uploading-Over :
        (u : UploadSession) (w : World S) (f : UploadSession → Action S UploadPart)
        → u.id ≢ id
        → Over w
        → ((v : UploadSession) (w' : World S) → v.id ≢ id → Over w' → Over (f v w').1)
        → Over ((start_uploading app who u >>= f) w).1
    unfolding start_uploading
    start_uploading-Over u w f other h k = elim (Bool-cases (is_initiated u.status)) [
      | inl e ↦
          let u' : UploadSession = record u { status = UploadStatus.uploading } in
          rw e (
            k u' (record w { db = save_upload w.now u' w.db }) other
              (save-HasEnded id tenant w.now u' w.db other h))
      | inr e ↦ rw e (k u w other h)
    ]

    pub proxy_upload_part-Over :
        (id' : ℕ) (n : ℤ) (stream : Bytes) (size : ℕ) (checksum : Option Text) (w : World S)
        → Over w
        → Over (proxy_upload_part app who id' n stream size checksum w).1
    unfolding proxy_upload_part get_session inactive_error
    proxy_upload_part-Over id' n stream size checksum w h =
        after-or_raise Over (get_upload w.db id' (some who.tenant_id)) upload_not_found _ w h
          (λ u e. after-raise_some Over (inactive_error u.status) _ w h (λ live.
            after-raise_when Over (not (is_part_number n u.total_parts))
              (invalid_part_number n u.total_parts) _ w h
              (λ _.
                after-raise_when Over (ltb u.part_size size || too_small app who u n size)
                  (invalid_part_size (pos size)
                    app.settings.uploads.multipart.minimum_part_size_bytes u.part_size)
                  _ w h
                  (λ _.
                    start_uploading-Over u w _
                      (live-other id id' tenant (some who.tenant_id) u w.db h e (ground arith)) h
                      (λ v w' other kept.
                        after-call Over
                          (app.storage.upload_part v.bucket v.object_key (storage_id_of v)
                            (pos_part n) stream size checksum)
                          _ w' (λ _. kept)
                          (λ a s. record_part-Over v _ (record w' { store = s }) other kept))))))

    pub resume-Over : (id' : ℕ) (w : World S) → Over w → Over (resume app who id' w).1
    unfolding resume get_session ended_error
    resume-Over id' w h =
        after-or_raise Over (get_upload w.db id' (some who.tenant_id)) upload_not_found _ w h
          (λ u e. after-raise_some Over (ended_error u.status) _ w h (λ live.
            after-lift Over (listed_numbers app who u w.store) _ w h (λ _ _.
              save-HasEnded id tenant w.now u w.db
                (live-other id id' tenant (some who.tenant_id) u w.db h e (ground arith)) h)))

    pub refresh-Over : (id' : ℕ) (w : World S) → Over w → Over (refresh app who id' w).1
    unfolding refresh get_session
    refresh-Over id' w h =
        after-raise_when Over (not app.settings.uploads.session.refresh_enabled) refresh_disabled _
          w h
          (λ _.
            after-or_raise Over (get_upload w.db id' (some who.tenant_id)) upload_not_found _ w h
              (λ u e.
                after-raise_when Over (is_finished u.status) upload_state_conflict _ w h (λ live.
                  after-raise_when Over
                    (ltb
                      (u.created_at + seconds app.settings.uploads.session.maximum_lifetime_seconds)
                      w.now)
                    upload_expired _ w h
                    (λ _.
                      save-HasEnded id tenant w.now
                        (record u {
                          expires_at = add_seconds w.now (get_session_expiry app.settings w.db);
                          last_activity_at = w.now;
                        })
                        w.db
                        (live-other id id' tenant (some who.tenant_id) u w.db h e (ground arith))
                        h))))

    initiate-Over :
        (mode : UploadMode) (bucket key : Text) (w : World S)
        → Over w
        → Over (initiate app mode bucket key w).1
    unfolding initiate
    initiate-Over mode bucket key w h = elim (Bool-cases (is_presigned mode)) [
      | inl e ↦ rw e (
          after-call Over (app.storage.initiate_multipart_upload bucket key) _ w (λ _. h)
            (λ _ _. h))
      | inr e ↦ rw e h
    ]

    add_upload-Over : (u : UploadSession) (w : World S) → Over w → Over (add_upload app u w).1
    unfolding add_upload
    add_upload-Over u w h = record {
      over =
          All-append (IsOver id tenant) w.db.uploads (_ ∷ []) h.over
            (λ e. absurd (omega (arith, e, h.old)), tt);
      there = any-append (λ v. v.id == id) w.db.uploads _ h.there;
      old = omega (arith, h.old);
    }

    pub create_session-Over :
        (r : NewUpload) (w : World S) → Over w → Over (create_session app who r w).1
    unfolding create_session
    create_session-Over r w h = after-lift Over (plan app who r w) _ w h (λ p _.
        after-bind Over (initiate app p.mode r.bucket p.key) _ w
          (initiate-Over p.mode r.bucket p.key w h)
          (λ storage w' k. add_upload-Over (new_row app who r p storage w) w' k))
