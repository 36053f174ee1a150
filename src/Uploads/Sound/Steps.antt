-- ===== src/Uploads/Sound/Steps.antt =====
-- The parts that a session takes keep the invariant of the sessions.
use pyupload_x.Base.{
  ℕ, ◌-◌, ◌*◌, ◌≡◌, refl, sym, ap, inl, inr, true, not, ◌||◌, Option, some, arith, ltb, Bool-cases,
  Text,
}
use pyupload_x.Base.Int.{ℤ, pos, negsuc, pos_part}
use pyupload_x.Errors.{invalid_part_number, invalid_part_size, upload_not_found}
use pyupload_x.Lifecycle.StateMachine.{UploadStatus}
use pyupload_x.Db.{Db}
use pyupload_x.Db.Rows.{UploadSession, UploadPart, PartStatus, nonempty}
use pyupload_x.Db.Uploads.{is_upload, get_upload, save_upload, upsert_part}
use pyupload_x.Storage.{Bytes, StoredPart}
use pyupload_x.Lifecycle.Policy.{or_else}
use pyupload_x.Request.{World, Identity, App, Action, ◌>>=◌}
use pyupload_x.Uploads.Parts.{
  get_session, inactive_error, is_part_number, part_offset, start_uploading, record_part,
  proxy_upload_part, commit_part, too_small, is_initiated, storage_id_of,
}
use pyupload_x.Uploads.Sound.{IsSound, IsPartOf}
use pyupload_x.Uploads.Sound.Known.{
  IsKnown, get_upload-IsKnown, save_upload-keeps, upsert_part-keeps,
}
use pyupload_x.Uploads.Sound.Rows.{SameShape}
use pyupload_x.Uploads.Sound.Outcome.{
  after-raise_when, after-raise_some, after-or_raise, after-call,
}

-- a checked number and its offset make a row of the session
IsPartOf-new :
    (u : UploadSession) (n : ℤ) (new : UploadPart)
    → is_part_number n u.total_parts ≡ true
    → new.part_number ≡ pos_part n
    → new.offset_bytes ≡ part_offset u n
    → IsPartOf u new
IsPartOf-new u (pos n) new h e f owner = ground arith
IsPartOf-new u (negsuc n) new h e f owner = ground arith

-- The row that `get_session` reads is known.
pub found-IsKnown :
    (id : ℕ) (tenant : Option Text) (u : UploadSession) (db : Db)
    → get_upload db id tenant ≡ some u
    → IsSound db
    → IsKnown u db
unfolding get_upload
found-IsKnown id tenant u db e h = get_upload-IsKnown (is_upload id tenant) u db e h

abbrev committed_row : UploadSession → ℤ → ℤ → Text → Option Text → UploadPart
committed_row u n size etag checksum = record {
  upload_id = u.id;
  part_number = pos_part n;
  offset_bytes = part_offset u n;
  size_bytes = size;
  etag = some etag;
  checksum_sha256 = checksum;
  status = PartStatus.committed;
}

abbrev stored_row : UploadSession → ℤ → Option Text → StoredPart → UploadPart
stored_row v n checksum a =
    committed_row v n a.size_bytes a.etag (or_else (nonempty a.checksum_sha256) checksum)

module _ {S : Type 0} where
  abbrev pub Sound : World S → Type 0
  Sound w = IsSound w.db

  abbrev pub Keeps : UploadSession → World S → Type 0
  Keeps u w = IsSound w.db × IsKnown u w.db

module _ {S : Type 0} (app : App S) (identity : Identity) where
  record_part-Keeps :
      (u v : UploadSession) (new : UploadPart) (w : World S)
      → SameShape u v
      → IsPartOf u new
      → new.upload_id ≡ u.id
      → Keeps u w
      → Keeps u (record_part app identity v new w).1
  unfolding record_part
  record_part-Keeps u v new w same fits owner h =
      save_upload-keeps w.now u v (upsert_part app.dialect new w.db) same
        (upsert_part-keeps app.dialect new u w.db fits owner h)

  -- Entering a part that was sent to the backend directly keeps the sessions sound, whether the call
  -- returns or raises.
  pub commit_part-IsSound :
      (id : ℕ) (n : ℤ) (etag : Text) (size : ℤ) (checksum : Option Text) (w : World S)
      → IsSound w.db
      → IsSound (commit_part app identity id n etag size checksum w).1.db
  unfolding commit_part get_session
  commit_part-IsSound id n etag size checksum w h =
      after-or_raise Sound (get_upload w.db id (some identity.tenant_id)) upload_not_found _ w h
        (λ u e.
          let known = found-IsKnown id (some identity.tenant_id) u w.db e h in
          after-raise_some Sound (inactive_error u.status) _ w h (λ _.
            after-raise_when Sound (not (is_part_number n u.total_parts))
              (invalid_part_number n u.total_parts) _ w h
              (λ inside.
                (record_part-Keeps u u (committed_row u n size etag checksum) w (refl, refl, refl)
                  (IsPartOf-new u n (committed_row u n size etag checksum) (ground arith) refl refl)
                  refl (h, known)).0)))

  start_uploading-Keeps :
      (u : UploadSession) (w : World S) (f : UploadSession → Action S UploadPart)
      → Keeps u w
      → ((v : UploadSession) (w' : World S) → SameShape u v → Keeps u w' → IsSound (f v w').1.db)
      → IsSound ((start_uploading app identity u >>= f) w).1.db
  unfolding start_uploading
  start_uploading-Keeps u w f h k = elim (Bool-cases (is_initiated u.status)) [
    | inl e ↦
        let u' : UploadSession = record u { status = UploadStatus.uploading } in
        rw e (
          k u' (record w { db = save_upload w.now u' w.db }) (refl, refl, refl)
            (save_upload-keeps w.now u u' w.db (refl, refl, refl) h))
    | inr e ↦ rw e (k u w (refl, refl, refl) h)
  ]

  -- So does a part sent through the service, also where the backend fails.
  pub proxy_upload_part-IsSound :
      (id : ℕ) (n : ℤ) (stream : Bytes) (size : ℕ) (checksum : Option Text) (w : World S)
      → IsSound w.db
      → IsSound (proxy_upload_part app identity id n stream size checksum w).1.db
  unfolding proxy_upload_part get_session
  proxy_upload_part-IsSound id n stream size checksum w h =
      after-or_raise Sound (get_upload w.db id (some identity.tenant_id)) upload_not_found _ w h
        (λ u e.
          let known = found-IsKnown id (some identity.tenant_id) u w.db e h in
          after-raise_some Sound (inactive_error u.status) _ w h (λ _.
            after-raise_when Sound (not (is_part_number n u.total_parts))
              (invalid_part_number n u.total_parts) _ w h
              (λ inside.
                after-raise_when Sound (ltb u.part_size size || too_small app identity u n size)
                  (invalid_part_size (pos size)
                    app.settings.uploads.multipart.minimum_part_size_bytes u.part_size)
                  _ w h
                  (λ _.
                    start_uploading-Keeps u w _ (h, known)
                      (λ v w' same kept.
                        after-call Sound
                          (app.storage.upload_part v.bucket v.object_key (storage_id_of v)
                            (pos_part n) stream size checksum)
                          _ w' (λ _. kept.0)
                          (λ a s.
                            (record_part-Keeps u v (stored_row v n checksum a)
                              (record w' { store = s }) same (fits u v a same (ground arith))
                              (sym same.0) kept).0))))))
    where
      fits :
          (u v : UploadSession) (a : StoredPart)
          → SameShape u v
          → is_part_number n u.total_parts ≡ true
          → IsPartOf u (stored_row v n checksum a)
      fits u v a same inside =
          IsPartOf-new u n (stored_row v n checksum a) inside refl
            (ap (λ (k : ℕ). (pos_part n - 1) * k) (sym same.2))
