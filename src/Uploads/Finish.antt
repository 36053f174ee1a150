-- ===== src/Uploads/Finish.antt =====
-- app/services/upload_service.py: `abort` and `refresh`; app/services/cleanup_service.py: the expiry of
-- sessions.
use pyupload_x.Base.{
  ℕ, ◌+◌, Bool, true, false, not, ◌&&◌, ◌||◌, Option, none, some, List, map, ltb, leb,
  if◌then◌else◌, length, take, select, contains, Text,
}
use pyupload_x.Errors.{
  ok, upload_already_completed, upload_expired, upload_state_conflict, refresh_disabled,
}
use pyupload_x.Lifecycle.Mode.{Time, seconds}
use pyupload_x.Lifecycle.StateMachine.{UploadStatus, transition_upload}
use pyupload_x.Db.Rows.{UploadSession, nonempty}
use pyupload_x.Db.Uploads.{save_upload}
use pyupload_x.Request.Settings.{get_session_expiry}
use pyupload_x.Request.{
  Identity, Action, App, pure, lift, gets, call, ignore_error, raise_when, modify_db, ◌>>=◌, ◌>>◌,
}
use pyupload_x.Uploads.Parts.{get_session}
use pyupload_x.Uploads.Create.{add_seconds}
use pyupload_x.Uploads.Complete.Checks.{is_completed}

-- `status in (aborted, expired)`
abbrev pub is_gone : UploadStatus → Bool
is_gone UploadStatus.aborted = true
is_gone UploadStatus.expired = true
is_gone _ = false

abbrev pub is_finished : UploadStatus → Bool
is_finished s = is_completed s || is_gone s

module _ {S : Type 0} (app : App S) (identity : Identity) where
  -- the backend's own abort, whose `ApiError` is ignored
  unfoldable pub abort_stored : UploadSession → Option Text → Action S Unit
  abort_stored u none = pure tt
  abort_stored u (some id) =
      ignore_error (call (app.storage.abort_multipart_upload u.bucket u.object_key id))

  unfoldable pub abort_open : UploadSession → Action S UploadSession
  unfolding abort_stored transition_upload save_upload
  abort_open u = do
    now ← gets (λ w. w.now)
    lift (transition_upload u.status UploadStatus.aborting)
    modify_db (save_upload now (record u { status = UploadStatus.aborting }))
    abort_stored u (nonempty u.storage_upload_id)
    let u' : UploadSession = record u { status = UploadStatus.aborted; updated_at = now }
    modify_db (save_upload now u')
    pure u'

  unfoldable pub abort : ℕ → Action S UploadSession
  unfolding get_session abort_open
  abort upload_id = do
    u ← get_session app identity upload_id
    raise_when (is_completed u.status) upload_already_completed
    if is_gone u.status then pure u else abort_open u

  unfoldable pub refresh : ℕ → Action S UploadSession
  unfolding get_session save_upload
  refresh upload_id = do
    raise_when (not app.settings.uploads.session.refresh_enabled) refresh_disabled
    u ← get_session app identity upload_id
    raise_when (is_finished u.status) upload_state_conflict
    w ← gets (λ w. w)
    raise_when
        (ltb (u.created_at + seconds app.settings.uploads.session.maximum_lifetime_seconds) w.now)
        upload_expired
    let u' : UploadSession = record u {
      expires_at = add_seconds w.now (get_session_expiry app.settings w.db);
      last_activity_at = w.now;
    }
    modify_db (save_upload w.now u')
    pure u'

-- app/services/cleanup_service.py

-- the `where` of the sessions to expire
abbrev pub is_open_status : UploadStatus → Bool
is_open_status UploadStatus.initiated = true
is_open_status UploadStatus.uploading = true
is_open_status _ = false

unfoldable pub is_overdue : Time → UploadSession → Bool
is_overdue now u = is_open_status u.status && leb u.expires_at now

-- the rows of the update
abbrev pub expire_row : Time → List ℕ → UploadSession → UploadSession
expire_row now ids u =
    if contains u.id ids
    then record u { status = UploadStatus.expired; last_activity_at = now; updated_at = now }
    else u

unfoldable pub overdue_ids : Time → ℕ → List UploadSession → List ℕ
unfolding is_overdue
overdue_ids now batch_size us = take batch_size (map (λ u. u.id) (select (is_overdue now) us))

unfoldable pub expire_upload_sessions : {S : Type 0} → ℕ → Action S ℕ
unfolding overdue_ids
expire_upload_sessions batch_size w =
    let ids = overdue_ids w.now batch_size w.db.uploads in
    (
      ok (length ids),
      record w { db = record w.db { uploads = map (expire_row w.now ids) w.db.uploads } },
    )
