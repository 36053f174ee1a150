-- ===== src/Files/Proxy.antt =====
-- `proxy_upload` of app/services/file_service.py: a file uploaded in one request.
use pyupload_x.Base.{
  ℕ, ◌+◌, ◌≡◌, sym, ap, subst, ◌∙◌, true, false, not, Option, none, some, List, [], ◌∷◌, ◌++◌,
  arith, if◌then◌else◌, any, Text, codes,
}
use pyupload_x.Base.Int.{pos, ◌≤ℤ◌, ltb_ℤ}
use pyupload_x.Errors.{ok, invalid_bucket, file_too_large}
use pyupload_x.Paths.{normalize_relative_path}
use pyupload_x.Paths.Segments.{split_on}
use pyupload_x.Lifecycle.Mode.{Time}
use pyupload_x.Lifecycle.StateMachine.{LifecycleStatus}
use pyupload_x.Lifecycle.Policy.{Requested, Effective}
use pyupload_x.Buckets.{is_bucket_allowed}
use pyupload_x.Db.{Db}
use pyupload_x.Db.Rows.{FileObject, FileStatus, nonempty}
use pyupload_x.Db.Files.{same_object, add_file}
use pyupload_x.Storage.{Bytes, StoredObject}
use pyupload_x.Request.Settings.{get_max_file_size}
use pyupload_x.Request.{
  World, Identity, App, Action, pure, lift, gets, call, raise_when, modify_db, ◌>>=◌, ◌>>◌,
}
use pyupload_x.Request.Laws.{raise_when-eq-ok, lift-eq-ok, call-eq-ok}
use pyupload_x.Uploads.Plan.{effective_lifecycle, or_default, refuse_existing}
use pyupload_x.Uploads.Create.{last_of}
use pyupload_x.Uploads.Complete.{columns_of, is_given}

-- the arguments of `proxy_upload`
pub record NewFile : Type 0 where
  pub bucket : Text
  pub object_key : Text
  pub original_filename : Text
  pub content_type : Option Text
  pub size_bytes : ℕ
  pub stream : Bytes
  pub checksum_sha256 : Option Text
  pub file_fingerprint : Option Text
  pub lifecycle : Option Requested
  pub metadata : List (Text × Text)

module _ {S : Type 0} (app : App S) (identity : Identity) where
  -- the row of the new file; its key is given when it is added
  unfoldable pub uploaded_row : NewFile → Text → Option Effective → StoredObject → Time → FileObject
  uploaded_row r key effective stored now =
      let columns = columns_of true effective in
      record {
        id = 0;
        tenant_id = identity.tenant_id;
        principal_id = identity.principal_id;
        bucket = r.bucket;
        object_key = key;
        storage_backend = app.storage.backend_name;
        original_filename = or_default r.original_filename (last_of (split_on b'/' key));
        size_bytes = stored.size_bytes;
        content_type = r.content_type;
        etag = stored.etag;
        checksum_algorithm =
            if is_given (nonempty r.checksum_sha256) then some (codes "sha256") else none;
        checksum_value = r.checksum_sha256;
        file_fingerprint = r.file_fingerprint;
        upload_id = none;
        metadata = r.metadata;
        status = FileStatus.active;
        lifecycle_mode = columns.mode;
        lifecycle_action = columns.action;
        lifecycle_status = LifecycleStatus.active;
        ttl_seconds = columns.ttl_seconds;
        expires_at = columns.expires_at;
        next_action_at = columns.next_action_at;
        legal_hold = false;
        lifecycle_source = if is_given r.lifecycle then codes "client" else codes "server";
        delete_attempts = 0;
        completed_at = now;
        deleted_at = none;
        created_at = now;
      }

  unfoldable pub proxy_upload : NewFile → Action S FileObject
  unfolding uploaded_row add_file refuse_existing effective_lifecycle
  proxy_upload r = do
    w ← gets (λ w. w)
    raise_when (not (is_bucket_allowed app.settings w.db identity.tenant_id r.bucket))
        invalid_bucket
    key ← lift (normalize_relative_path app.nfc 64 1024 r.object_key)
    raise_when (ltb_ℤ (get_max_file_size app.settings w.db) (pos r.size_bytes))
        (file_too_large (pos app.settings.uploads.maximum_bytes))
    lift (refuse_existing app r.bucket key w.store)
    effective ← lift (effective_lifecycle app.settings w.db r.lifecycle (some w.now) w.now)
    stored ← call (app.storage.put_object r.bucket key r.stream r.size_bytes r.checksum_sha256)
    (f, db) ← lift (add_file (uploaded_row r key effective stored w.now) w.db)
    modify_db (λ _. db)
    pure f

  -- What a file that was uploaded is: its row is new, active and not held, belongs to the caller, and
  -- has the size and etag that the backend reports; no row had its tenant, bucket and key.
  pub record IsUploaded (r : NewFile) (w : World S) (f : FileObject) (w' : World S) : Type 0 where
    pub key : normalize_relative_path app.nfc 64 1024 r.object_key ≡ ok f.object_key
    pub bucket : is_bucket_allowed app.settings w.db identity.tenant_id f.bucket ≡ true
    pub owner : f.tenant_id ≡ identity.tenant_id
    pub fits : pos r.size_bytes ≤ℤ get_max_file_size app.settings w.db
    pub live : (f.status ≡ FileStatus.active) × (f.legal_hold ≡ false)
    pub unique : any (same_object f) w.db.files ≡ false
    pub object : StoredObject
    pub stored :
        app.storage.put_object r.bucket f.object_key r.stream r.size_bytes r.checksum_sha256 w.store
        ≡ (ok object, w'.store)
    pub as_stored : (f.size_bytes ≡ object.size_bytes) × (f.etag ≡ object.etag)
    pub added : w'.db ≡ record w.db { files = w.db.files ++ f ∷ []; next_id = w.db.next_id + 1 }

  add_file-eq-ok :
      (f g : FileObject) (db db' : Db)
      → add_file f db ≡ ok (g, db')
      → (g ≡ record f { id = db.next_id })
        × (any (same_object g) db.files ≡ false)
        × (db' ≡ record db { files = db.files ++ g ∷ []; next_id = db.next_id + 1 })
  unfolding add_file
  add_file-eq-ok f g db db' h =
      let row : FileObject = record f { id = db.next_id } in
      let same : g ≡ row = ground arith in (same, rw same (ground arith), rw same (ground arith))

  uploaded-facts :
      (r : NewFile) (key : Text) (effective : Option Effective) (object : StoredObject) (now : Time)
      (g : FileObject) {n : ℕ}
      → g ≡ record (uploaded_row r key effective object now) { id = n }
      → (g.object_key ≡ key)
        × (g.bucket ≡ r.bucket)
        × (g.tenant_id ≡ identity.tenant_id)
        × ((g.status ≡ FileStatus.active) × (g.legal_hold ≡ false))
        × ((g.size_bytes ≡ object.size_bytes) × (g.etag ≡ object.etag))
  unfolding uploaded_row
  uploaded-facts r key effective object now g e = (
    ground arith,
    ground arith,
    ground arith,
    (ground arith, ground arith),
    (ground arith, ground arith),
  )

  -- An upload that returns left exactly that row, and the object that the backend reported.
  pub proxy_upload-IsUploaded :
      (r : NewFile) (w : World S) (f : FileObject) (w' : World S)
      → proxy_upload r w ≡ (ok f, w')
      → IsUploaded r w f w'
  unfolding proxy_upload
  proxy_upload-IsUploaded r w f w' h =
      let (allowed, h1) =
        raise_when-eq-ok (not (is_bucket_allowed app.settings w.db identity.tenant_id r.bucket))
          invalid_bucket _ w h in
      let (key, normal, h2) =
        lift-eq-ok (normalize_relative_path app.nfc 64 1024 r.object_key) _ w h1 in
      let (fits, h3) =
        raise_when-eq-ok (ltb_ℤ (get_max_file_size app.settings w.db) (pos r.size_bytes))
          (file_too_large (pos app.settings.uploads.maximum_bytes)) _ w h2 in
      let (_, _, h4) = lift-eq-ok (refuse_existing app r.bucket key w.store) _ w h3 in
      let (effective, _, h5) =
        lift-eq-ok (effective_lifecycle app.settings w.db r.lifecycle (some w.now) w.now) _ w h4 in
      let (object, store, put, h6) =
        call-eq-ok (app.storage.put_object r.bucket key r.stream r.size_bytes r.checksum_sha256) _ w
          h5 in
      let row = uploaded_row r key effective object w.now in
      let ((g, db), add, h7) = lift-eq-ok (add_file row w.db) _ (record w { store = store }) h6 in
      let (made, unique, added) = add_file-eq-ok row g w.db db add in
      let same : f ≡ g = ground arith in
      let facts = uploaded-facts r key effective object w.now g made in
      let (same_key, same_bucket, owner, live, reported) = facts in
      subst (λ (x : FileObject). IsUploaded r w x w') (sym same)
        (record {
          key = normal ∙ ap ok (sym same_key);
          bucket =
              ap (is_bucket_allowed app.settings w.db identity.tenant_id) same_bucket
              ∙ ground (arith, allowed);
          owner = owner;
          fits = ground (arith, fits);
          live = live;
          unique = unique;
          object = object;
          stored =
              ap
                (λ (k : Text).
                  app.storage.put_object r.bucket k r.stream r.size_bytes r.checksum_sha256 w.store)
                same_key
              ∙ put
              ∙ ground arith;
          as_stored = reported;
          added = ground (arith, added);
        })
