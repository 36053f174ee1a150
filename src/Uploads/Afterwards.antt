-- ===== src/Uploads/Afterwards.antt =====
-- app/services/upload_service.py: what later requests meet when a session was completed or aborted.
use pyupload_x.Base.{
  ℕ, ◌≡◌, refl, ap, subst, ◌∙◌, ◌⊎◌, inl, inr, Bool, true, false, Option, none, some, List, arith,
  Bool-cases, Text,
}
use pyupload_x.Base.Int.{ℤ}
use pyupload_x.Errors.{
  Error, ok, err, upload_not_found, upload_aborted, upload_expired, upload_already_completed,
  upload_state_conflict, refresh_disabled,
}
use pyupload_x.Lifecycle.StateMachine.{UploadStatus, transition_upload}
use pyupload_x.Db.{Db}
use pyupload_x.Lifecycle.Mode.{Time}
use pyupload_x.Db.Rows.{UploadSession, FileObject, nonempty}
use pyupload_x.Db.Uploads.{get_upload, save_upload}
use pyupload_x.Db.Files.{get_file}
use pyupload_x.Storage.{StoredObject, Bytes}
use pyupload_x.Request.{World, Identity, App}
use pyupload_x.Request.Laws.{lift-eq-ok, or_raise-eq-ok, raise_when-eq-ok, bind-eq-ok}
use pyupload_x.Uploads.Parts.{
  get_session, inactive_error, proxy_upload_part, commit_part, presign_parts,
}
use pyupload_x.Uploads.Complete.{complete, existing_file, file_row, resume}
use pyupload_x.Uploads.Complete.Checks.{is_completed, ended_error}
use pyupload_x.Uploads.Finish.{abort, abort_open, abort_stored, refresh, is_gone, is_finished}
use pyupload_x.Uploads.Sound.Endings.{abort-IsSound}
use pyupload_x.Uploads.Sound.Runs.{Run}
use pyupload_x.Uploads.Ended.{HasEnded-found, found-HasEnded}
use pyupload_x.Uploads.Ended.Runs.{Run-HasEnded}
use pyupload_x.Uploads.Sound.{IsSound}
use pyupload_x.Uploads.Sound.Known.{save_upload-keeps}
use pyupload_x.Uploads.Sound.Steps.{found-IsKnown}
use pyupload_x.Uploads.Sound.Sessions.{add_file-keeps}
use pyupload_x.Uploads.Written.{stamped, get_upload-save, get_file-add}
use pyupload_x.Uploads.Endings.{complete-IsJoined, finished}

abbrev is_expired : UploadStatus → Bool
is_expired UploadStatus.expired = true
is_expired _ = false

same_uploads :
    (id : ℕ) (tenant : Option Text) (a b : Db)
    → a.uploads ≡ b.uploads
    → get_upload a id tenant ≡ get_upload b id tenant
unfolding get_upload
same_uploads id tenant a b e = rw e refl

same_files :
    (now : Time) (u : UploadSession) (db : Db) (id : ℕ) (tenant : Option Text)
    → get_file (save_upload now u db) id tenant ≡ get_file db id tenant
unfolding get_file save_upload
same_files now u db id tenant = refl

module _ {S : Type 0} (app : App S) (identity : Identity) where
  again :
      (id : ℕ) (w : World S) (v : UploadSession) (f : FileObject)
      → get_upload w.db id (some identity.tenant_id) ≡ some v
      → v.status ≡ UploadStatus.completed
      → v.completed_file_id ≡ some f.id
      → get_file w.db f.id (some identity.tenant_id) ≡ some f
      → complete app identity id w ≡ (ok f, w)
  unfolding complete get_session existing_file
  again id w v f found status file there = rw found (rw status (rw file (rw there refl)))

  owner_of :
      (u : UploadSession) (o : StoredObject) (now : Time) (f : FileObject) {n : ℕ}
      → f ≡ record (file_row app identity u o now) { id = n }
      → f.tenant_id ≡ identity.tenant_id
  unfolding file_row
  owner_of u o now f e = ap (λ (x : FileObject). x.tenant_id) e

  -- every request that would go on with a session raises, and nothing changes
  pub record IsRefused (id : ℕ) (w : World S) : Type 0 where
    pub error : Error
    pub which : (error ≡ upload_aborted) ⊎ (error ≡ upload_expired)
    pub completes : complete app identity id w ≡ (err error, w)
    pub resumes : resume app identity id w ≡ (err error, w)
    pub commits :
        (n : ℤ) (etag : Text) (size : ℤ) (checksum : Option Text)
        → commit_part app identity id n etag size checksum w ≡ (err error, w)
    pub uploads :
        (n : ℤ) (stream : Bytes) (size : ℕ) (checksum : Option Text)
        → proxy_upload_part app identity id n stream size checksum w ≡ (err error, w)
    pub presigns :
        (ns : List ℤ) (expires : Option ℤ)
        → presign_parts app identity id ns expires w ≡ (err error, w)
    pub refreshes : (e : Error) × (refresh app identity id w ≡ (err e, w))

  -- Completion may be repeated: after a session was completed, in sound tables, the same request
  -- returns the same file and changes nothing, neither in the tables nor at the backend.
  pub complete-again :
      (id : ℕ) (w : World S) (u : UploadSession) (f : FileObject) (w' : World S)
      → IsSound w.db
      → get_upload w.db id (some identity.tenant_id) ≡ some u
      → existing_file app identity u w.db ≡ none
      → complete app identity id w ≡ (ok f, w')
      → complete app identity id w' ≡ (ok f, w')
  complete-again id w u f w' sound found fresh h =
      let tenant = some identity.tenant_id in
      let joined = (complete-IsJoined app identity id w u f w' found fresh h).1 in
      let u1 : UploadSession = record u { status = UploadStatus.completing } in
      let db1 : Db = save_upload w.now u1 w.db in
      let kept =
        save_upload-keeps w.now u u1 w.db (refl, refl, refl)
          (sound, found-IsKnown id tenant u w.db found sound) in
      let there1 : get_upload db1 id tenant ≡ some (stamped w.now u1) =
        get_upload-save id tenant w.now u u1 w.db (refl, refl) sound found in
      let (db2, added, ends) =
        finished app identity u1 joined.object (record w { db = db1; store = joined.store }) f w'
          joined.ends in
      let row = file_row app identity u1 joined.object w.now in
      let (file_there, same, made) = get_file-add row db1 kept.0 added in
      let sound2 = (add_file-keeps row u db1 added kept).0 in
      let u2 : UploadSession = record u1 {
        status = UploadStatus.completed;
        completed_file_id = some f.id;
      } in
      let there2 : get_upload (save_upload w.now u2 db2) id tenant ≡ some (stamped w.now u2) =
        get_upload-save id tenant w.now (stamped w.now u1) u2 db2 (refl, refl) sound2
          (same_uploads id tenant db2 db1 same ∙ there1) in
      let owner : f.tenant_id ≡ identity.tenant_id = owner_of u1 joined.object w.now f made in
      rw ends (
        again id (record w { db = save_upload w.now u2 db2; store = joined.store })
          (stamped w.now u2) f there2 refl refl
          (same_files w.now u2 db2 f.id tenant
            ∙ subst (λ (t : Text). get_file db2 f.id (some t) ≡ some f) owner file_there))

  ended :
      (u : UploadSession) (w : World S)
      → is_gone u.status ≡ true
      → (x : Error) × ((x ≡ upload_aborted) ⊎ (x ≡ upload_expired))
        × (inactive_error u.status ≡ some x)
        × (ended_error u.status ≡ some x)
        × (existing_file app identity u w.db ≡ none)
  unfolding inactive_error ended_error existing_file
  ended u w h = elim (Bool-cases (is_expired u.status)) [
    | inl e ↦ (upload_expired, ground arith, ground arith, ground arith, ground arith)
    | inr e ↦ (upload_aborted, ground arith, ground arith, ground arith, ground arith)
  ]

  finished_too : (s : UploadStatus) → is_gone s ≡ true → is_finished s ≡ true
  finished_too s h = ground arith

  refused :
      (id : ℕ) (w : World S) (u : UploadSession)
      → get_upload w.db id (some identity.tenant_id) ≡ some u
      → is_gone u.status ≡ true
      → IsRefused id w
  unfolding complete resume commit_part proxy_upload_part presign_parts refresh get_session
  refused id w u found gone =
      let (x, which, inactive, over, none_yet) = ended u w gone in
      record {
        error = x;
        which = which;
        completes = rw found (rw none_yet (rw over refl));
        resumes = rw found (rw over refl);
        commits = λ n etag size checksum. rw found (rw inactive refl);
        uploads = λ n stream size checksum. rw found (rw inactive refl);
        presigns = λ ns expires. rw found (rw inactive refl);
        refreshes = elim (Bool-cases app.settings.uploads.session.refresh_enabled) [
          | inl on ↦
              (upload_state_conflict, rw on (rw found (rw (finished_too u.status gone) refl)))
          | inr off ↦ (refresh_disabled, rw off refl)
        ];
      }

  stored-same :
      (u : UploadSession) (o : Option Text) (w : World S) {a : Unit {0}} {v : World S}
      → abort_stored app identity u o w ≡ (ok a, v)
      → v.db ≡ w.db
  unfolding abort_stored
  stored-same u none w h = ground arith
  stored-same u (some id) w h = ground arith

  aborting :
      (id : ℕ) (w : World S) (u v : UploadSession) (w' : World S)
      → IsSound w.db
      → get_upload w.db id (some identity.tenant_id) ≡ some u
      → abort_open app identity u w ≡ (ok v, w')
      → (x : UploadSession) × (get_upload w'.db id (some identity.tenant_id) ≡ some x)
        × (is_gone x.status ≡ true)
  unfolding abort_open
  aborting id w u v w' sound found h =
      let tenant = some identity.tenant_id in
      let (_, _, h1) = lift-eq-ok (transition_upload u.status UploadStatus.aborting) _ w h in
      let u1 : UploadSession = record u { status = UploadStatus.aborting } in
      let db1 : Db = save_upload w.now u1 w.db in
      let (_, x, stored, h2) =
        bind-eq-ok (abort_stored app identity u (nonempty u.storage_upload_id)) _
          (record w { db = db1 }) h1 in
      let same : x.db ≡ db1 =
        stored-same u (nonempty u.storage_upload_id) (record w { db = db1 }) stored in
      let kept =
        save_upload-keeps w.now u u1 w.db (refl, refl, refl)
          (sound, found-IsKnown id tenant u w.db found sound) in
      let u2 : UploadSession = record u { status = UploadStatus.aborted; updated_at = w.now } in
      let last : w'.db ≡ save_upload w.now u2 x.db = ground arith in
      (
        stamped w.now u2,
        same_uploads id tenant w'.db (save_upload w.now u2 db1)
              (ap (λ (d : Db). d.uploads) (last ∙ ap (save_upload w.now u2) same))
            ∙ get_upload-save id tenant w.now (stamped w.now u1) u2 db1 (refl, refl) kept.0
                (get_upload-save id tenant w.now u u1 w.db (refl, refl) sound found),
        refl,
      )

  abort-HasEnded :
      (id : ℕ) (w : World S) (v : UploadSession) (w' : World S)
      → IsSound w.db
      → abort app identity id w ≡ (ok v, w')
      → (x : UploadSession) × (get_upload w'.db id (some identity.tenant_id) ≡ some x)
        × (is_gone x.status ≡ true)
  unfolding abort get_session
  abort-HasEnded id w v w' sound h =
      let (u, found, h1) =
        or_raise-eq-ok (get_upload w.db id (some identity.tenant_id)) upload_not_found _ w h in
      let (_, h2) = raise_when-eq-ok (is_completed u.status) upload_already_completed _ w h1 in
      elim (Bool-cases (is_gone u.status)) [
        | inl gone ↦
            let back : w ≡ w' = ground arith in
            (
              u,
              subst (λ (x : World S). get_upload x.db id (some identity.tenant_id) ≡ some u) back
                  found,
              gone,
            )
        | inr live ↦ aborting id w u v w' sound found (ground arith)
      ]

  -- An abort that returns ends a session of sound tables for good. In every state that a later run
  -- reaches, whatever requests of any clients, passes of the worker and changes of the backend and
  -- the clock it has, the tenant's completion, resumption, presigning and entering of parts raise
  -- that the session is aborted, or expired if it was that, and its refresh raises too; none of them
  -- changes anything.
  pub abort-IsRefused :
      (id : ℕ) (w : World S) (v : UploadSession) (w' x : World S)
      → IsSound w.db
      → abort app identity id w ≡ (ok v, w')
      → Run app w' x
      → IsRefused id x
  abort-IsRefused id w v w' x sound h run =
      let sound' : IsSound w'.db =
        subst (λ (y : World S). IsSound y.db) (ap (λ r. r.1) h)
          (abort-IsSound app identity id w sound) in
      let (u, found, gone) = abort-HasEnded id w v w' sound h in
      let ended' = found-HasEnded id identity.tenant_id w'.db u sound' found gone in
      let (u', found', gone') =
        HasEnded-found id identity.tenant_id x.db
          (Run-HasEnded app id identity.tenant_id run ended') in
      refused id x u' found' gone'
