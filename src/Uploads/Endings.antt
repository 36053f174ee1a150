-- ===== src/Uploads/Endings.antt =====
-- `complete` of app/services/upload_service.py: what a completed upload is.
use pyupload_x.Base.{
  ℕ, ◌≤◌, ◌≡◌, refl, subst, inl, inr, true, false, Option, none, some, List, arith, ltb, length,
  any,
}
use pyupload_x.Errors.{Error, ok, Result-cases, upload_not_found, missing_parts}
use pyupload_x.Lifecycle.StateMachine.{UploadStatus}
use pyupload_x.Db.{Db}
use pyupload_x.Db.Rows.{UploadSession, FileObject}
use pyupload_x.Db.Uploads.{get_upload, save_upload}
use pyupload_x.Db.Files.{add_file}
use pyupload_x.Storage.{StoredObject, StoredPart}
use pyupload_x.Request.{World, Identity, App, ◌>>=◌}
use pyupload_x.Request.Laws.{lift-eq-ok, or_raise-eq-ok, call-eq-ok, raise_when-eq-ok}
use pyupload_x.Uploads.Parts.{get_session, storage_id_of}
use pyupload_x.Uploads.Complete.{
  committed_parts, numbers_of, missing_from, complete, complete_open, complete_or_return,
  existing_file, reconciled, finish, file_row,
}
use pyupload_x.Uploads.Complete.Checks.{ended_error, raise_ended, may_complete}
use pyupload_x.Uploads.Sound.{IsSound}
use pyupload_x.Uploads.Sound.Steps.{found-IsKnown}
use pyupload_x.Uploads.Completion.{is_row, committed_parts-All}

module _ {S : Type 0} (app : App S) (identity : Identity) where
  pub finished :
      (u : UploadSession) (o : StoredObject) (w : World S) (f : FileObject) (w' : World S)
      → finish app identity u o w ≡ (ok f, w')
      → (db : Db) × (add_file (file_row app identity u o w.now) w.db ≡ ok (f, db))
        × (w' ≡ record w {
          db =
              save_upload w.now
                (record u { status = UploadStatus.completed; completed_file_id = some f.id })
                db;
        })
  unfolding finish
  finished u o w f w' h = elim (Result-cases (add_file (file_row app identity u o w.now) w.db)) [
    | inl (fd, e) ↦ (fd.1, ground arith, ground arith)
    | inr (x, e) ↦ absurd (ground arith)
  ]

  pub record IsJoined (u : UploadSession) (w : World S) (f : FileObject) (w' : World S)
      : Type 0 where
    pub many : ltb (length (committed_parts w.db u.id)) u.total_parts ≡ false
    pub parts : List StoredPart
    pub agree : reconciled app identity u (committed_parts w.db u.id) w.store ≡ ok parts
    pub may : may_complete u.status ≡ ok tt
    pub object : StoredObject
    pub store : S
    pub joined :
        app.storage.complete_multipart_upload u.bucket u.object_key (storage_id_of u) parts w.store
        ≡ (ok object, store)
    pub ends :
        finish app identity
          (record u { status = UploadStatus.completing })
          object
          (record w {
            db = save_upload w.now (record u { status = UploadStatus.completing }) w.db;
            store = store;
          })
        ≡ (ok f, w')

  complete_open-IsJoined :
      (u : UploadSession) (w : World S) (f : FileObject) (w' : World S)
      → complete_open app identity u w ≡ (ok f, w')
      → IsJoined u w f w'
  unfolding complete_open
  complete_open-IsJoined u w f w' h =
      let committed = committed_parts w.db u.id in
      let (many, h1) =
        raise_when-eq-ok (ltb (length committed) u.total_parts)
          (missing_parts (missing_from u.total_parts (numbers_of committed))) _ w h in
      let (parts, agree, h2) = lift-eq-ok (reconciled app identity u committed w.store) _ w h1 in
      let (_, may, h3) = lift-eq-ok (may_complete u.status) _ w h2 in
      let (object, store, joined, ends) =
        call-eq-ok
          (app.storage.complete_multipart_upload u.bucket u.object_key (storage_id_of u) parts) _
          (record w { db = save_upload w.now (record u { status = UploadStatus.completing }) w.db })
          h3 in
      record {
        many = many;
        parts = parts;
        agree = agree;
        may = may;
        object = object;
        store = store;
        joined = joined;
        ends = ends;
      }

  -- A session that was not completed before ran through the checks.
  pub complete-IsJoined :
      (id : ℕ) (w : World S) (u : UploadSession) (f : FileObject) (w' : World S)
      → get_upload w.db id (some identity.tenant_id) ≡ some u
      → existing_file app identity u w.db ≡ none
      → complete app identity id w ≡ (ok f, w')
      → (ended_error u.status ≡ none) × IsJoined u w f w'
  unfolding complete get_session
  complete-IsJoined id w u f w' found fresh h =
      let (v, e, h1) =
        or_raise-eq-ok (get_upload w.db id (some identity.tenant_id)) upload_not_found _ w h in
      let same : v ≡ u = ground arith in
      let h2 : complete_or_return app identity u none w ≡ (ok f, w') =
        subst (λ (o : Option FileObject). complete_or_return app identity u o w ≡ (ok f, w')) fresh
          (subst
            (λ (z : UploadSession).
              complete_or_return app identity z (existing_file app identity z w.db) w ≡ (ok f, w'))
            same h1) in
      live (ended_error u.status) refl h2
    where
      live :
          (o : Option Error)
          → ended_error u.status ≡ o
          → (raise_ended o >>= λ _. complete_open app identity u) w ≡ (ok f, w')
          → (ended_error u.status ≡ none) × IsJoined u w f w'
      live none e k = (e, complete_open-IsJoined u w f w' k)
      live (some x) e k = cc

  -- If a session that was not completed is completed, and the sessions are sound, then each number
  -- from 1 to its number of parts had a committed row.
  pub complete-has_parts :
      (id : ℕ) (w : World S) (u : UploadSession) (f : FileObject) (w' : World S) (n : ℕ)
      → IsSound w.db
      → get_upload w.db id (some identity.tenant_id) ≡ some u
      → existing_file app identity u w.db ≡ none
      → complete app identity id w ≡ (ok f, w')
      → 1 ≤ n
      → n ≤ u.total_parts
      → any (is_row u.id n) w.db.parts ≡ true
  complete-has_parts id w u f w' n sound found fresh h low high =
      let joined = (complete-IsJoined id w u f w' found fresh h).1 in
      committed_parts-All u w.db n sound.unique
        (found-IsKnown id (some identity.tenant_id) u w.db found sound).parts joined.many low high
