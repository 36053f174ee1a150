-- ===== src/Uploads/Sound/Sessions.antt =====
-- Sessions that are created, completed, aborted, refreshed or expired stay sound.
use pyupload_x.Base.{
  ℕ, ◌+◌, ◌<◌, ◌≡◌, refl, inl, inr, false, not, some, List, [], ◌∷◌, ◌++◌, arith, ltb, ◌==◌,
  Bool-cases, any, All, All-append, Text,
}
use pyupload_x.Errors.{
  ok, upload_not_found, upload_state_conflict, upload_expired, refresh_disabled,
}
use pyupload_x.Lifecycle.Mode.{seconds}
use pyupload_x.Db.{Db}
use pyupload_x.Db.Rows.{UploadMode, UploadSession, UploadPart, FileObject}
use pyupload_x.Db.Uploads.{get_upload}
use pyupload_x.Db.Files.{add_file}
use pyupload_x.Request.Settings.{get_session_expiry}
use pyupload_x.Request.{World, Identity, App}
use pyupload_x.Uploads.Plan.{NewUpload, plan}
use pyupload_x.Uploads.Create.{initiate, add_upload, create_session, is_presigned, add_seconds}
use pyupload_x.Uploads.Parts.{get_session}
use pyupload_x.Uploads.Complete
use pyupload_x.Uploads.Complete.Checks.{ended_error}
use pyupload_x.Uploads.Finish
use pyupload_x.Uploads.Sound.{IsSound, IsPartOf, AreDistinct}
use pyupload_x.Uploads.Sound.Known.{IsKnown, save_upload-keeps}
use pyupload_x.Uploads.Sound.Steps.{Sound, found-IsKnown}
use pyupload_x.Uploads.Sound.Outcome.{
  after-raise_when, after-raise_some, after-or_raise, after-lift, after-call, after-bind,
}

-- a key that is larger than all keys is new
AreDistinct-append :
    (u : UploadSession) (us : List UploadSession)
    → All (λ v. v.id < u.id) us
    → AreDistinct us
    → AreDistinct (us ++ u ∷ [])
AreDistinct-append u [] h k = (refl, tt)
AreDistinct-append u (v ∷ us) h k = (any-append us k.0, AreDistinct-append u us h.1 k.1)
  where
    any-append :
        (ws : List UploadSession)
        → any (λ w. w.id == v.id) ws ≡ false
        → any (λ w. w.id == v.id) (ws ++ u ∷ []) ≡ false
    any-append [] e = ground (arith, h.0)
    any-append (w ∷ ws) e = ground (arith, any-append ws)

-- the rows of earlier sessions are not rows of a new one
IsPartOf-fresh :
    (u : UploadSession) (ps : List UploadPart)
    → All (λ p. p.upload_id < u.id) ps
    → All (IsPartOf u) ps
IsPartOf-fresh u [] h = tt
IsPartOf-fresh u (p ∷ ps) h = (λ e. absurd (ground (arith, h.0)), IsPartOf-fresh u ps h.1)

module _ {ℓ} {A : Type ℓ} (key : A → ℕ) (n : ℕ) where
  All-later : (xs : List A) → All (λ x. key x < n) xs → All (λ x. key x < n + 1) xs
  All-later [] h = tt
  All-later (x ∷ xs) h = (omega (arith, h.0), All-later xs h.1)

add_upload-IsSound :
    (u : UploadSession) (db : Db)
    → u.id ≡ db.next_id
    → IsSound db
    → IsSound (record db { uploads = db.uploads ++ u ∷ []; next_id = db.next_id + 1 })
add_upload-IsSound u db e h = record {
  distinct = AreDistinct-append u db.uploads (rw e h.old_uploads) h.distinct;
  unique = h.unique;
  parts =
      All-append (λ v. All (IsPartOf v) db.parts) db.uploads (u ∷ []) h.parts
        (IsPartOf-fresh u db.parts (rw e h.old_parts), tt);
  old_uploads =
      All-append (λ v. v.id < db.next_id + 1) db.uploads (u ∷ [])
        (All-later (λ v. v.id) db.next_id db.uploads h.old_uploads) (omega arith, tt);
  old_parts = All-later (λ p. p.upload_id) db.next_id db.parts h.old_parts;
  old_files = All-later (λ f. f.id) db.next_id db.files h.old_files;
}

-- a file takes a fresh key
pub add_file-keeps :
    (f : FileObject) (u : UploadSession) (db : Db) {g : FileObject} {db' : Db}
    → add_file f db ≡ ok (g, db')
    → IsSound db × IsKnown u db
    → IsSound db' × IsKnown u db'
unfolding add_file
add_file-keeps f u db {g} {db'} e h =
    let row : FileObject = record f { id = db.next_id } in
    let added : db' ≡ record db { files = db.files ++ row ∷ []; next_id = db.next_id + 1 } =
      ground arith in
    rw added (
      record {
        distinct = h.0.distinct;
        unique = h.0.unique;
        parts = h.0.parts;
        old_uploads = All-later (λ v. v.id) db.next_id db.uploads h.0.old_uploads;
        old_parts = All-later (λ p. p.upload_id) db.next_id db.parts h.0.old_parts;
        old_files =
            All-append (λ v. v.id < db.next_id + 1) db.files (row ∷ [])
              (All-later (λ x. x.id) db.next_id db.files h.0.old_files) (omega arith, tt);
      },
      record { shape = h.1.shape; parts = h.1.parts; old = omega (arith, h.1.old) },
    )

module _ {S : Type 0} (app : App S) (identity : Identity) where
  initiate-Sound :
      (mode : UploadMode) (bucket key : Text) (w : World S)
      → IsSound w.db
      → IsSound (initiate app mode bucket key w).1.db
  unfolding initiate
  initiate-Sound mode bucket key w h = elim (Bool-cases (is_presigned mode)) [
    | inl e ↦ rw e (
        after-call Sound (app.storage.initiate_multipart_upload bucket key) _ w (λ _. h) (λ _ _. h))
    | inr e ↦ rw e h
  ]

  -- A session that is created, or refused, leaves the sessions sound.
  pub create_session-IsSound :
      (r : NewUpload) (w : World S) → IsSound w.db → IsSound (create_session app identity r w).1.db
  unfolding create_session add_upload
  create_session-IsSound r w h = after-lift Sound (plan app identity r w) _ w h (λ p _.
      after-bind Sound (initiate app p.mode r.bucket p.key) _ w
        (initiate-Sound p.mode r.bucket p.key w h) (λ id w' k. add_upload-IsSound _ w'.db refl k))

  pub resume-IsSound :
      (id : ℕ) (w : World S) → IsSound w.db → IsSound (Complete.resume app identity id w).1.db
  unfolding Complete.resume get_session
  resume-IsSound id w h =
      after-or_raise Sound (get_upload w.db id (some identity.tenant_id)) upload_not_found _ w h
        (λ u e.
          let known = found-IsKnown id (some identity.tenant_id) u w.db e h in
          after-raise_some Sound (ended_error u.status) _ w h (λ _.
            after-lift Sound (Complete.listed_numbers app identity u w.store) _ w h
              (λ _ _. (save_upload-keeps w.now u u w.db (refl, refl, refl) (h, known)).0)))

  pub refresh-IsSound :
      (id : ℕ) (w : World S) → IsSound w.db → IsSound (Finish.refresh app identity id w).1.db
  unfolding Finish.refresh get_session
  refresh-IsSound id w h =
      after-raise_when Sound (not app.settings.uploads.session.refresh_enabled) refresh_disabled _ w
        h
        (λ _.
          after-or_raise Sound (get_upload w.db id (some identity.tenant_id)) upload_not_found _ w h
            (λ u e.
              let known = found-IsKnown id (some identity.tenant_id) u w.db e h in
              after-raise_when Sound (Finish.is_finished u.status) upload_state_conflict _ w h (λ _.
                after-raise_when Sound
                  (ltb
                    (u.created_at + seconds app.settings.uploads.session.maximum_lifetime_seconds)
                    w.now)
                  upload_expired _ w h
                  (λ _.
                    (save_upload-keeps w.now u
                      (record u {
                        expires_at = add_seconds w.now (get_session_expiry app.settings w.db);
                        last_activity_at = w.now;
                      })
                      w.db (refl, refl, refl) (h, known)).0))))
