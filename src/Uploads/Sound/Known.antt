-- ===== src/Uploads/Sound/Known.antt =====
-- What stays true of a session between its being read and its row being written.
use pyupload_x.Base.{◌<◌, ◌≡◌, refl, sym, ◌∙◌, Bool, some, List, [], ◌∷◌, arith, find, All}
use pyupload_x.Lifecycle.Mode.{Time}
use pyupload_x.Db.Rows.{UploadSession, UploadPart}
use pyupload_x.Db.Uploads.{Dialect, save_upload, upsert_part}
use pyupload_x.Db.{Db}
use pyupload_x.Uploads.Sound.{IsPartOf, IsSound}
use pyupload_x.Uploads.Sound.Rows.{
  find-All, write_upload-All, SameShape, IsPartOf-shape, save_upload-IsSound, find_unique,
}
use pyupload_x.Uploads.Sound.PartRows.{
  IsPartOf-conflict, upsert_part-All, upsert_part-AreUnique, upsert_part-same,
}

map_All :
    (P Q : UploadSession → Type 0) (us : List UploadSession)
    → ((v : UploadSession) → P v → Q v)
    → All P us
    → All Q us
map_All P Q [] f h = tt
map_All P Q (u ∷ us) f h = (f u h.0, map_All P Q us f h.1)

All-both :
    (P Q : UploadSession → Type 0) (us : List UploadSession)
    → All P us
    → All Q us
    → All (λ v. P v × Q v) us
All-both P Q [] h k = tt
All-both P Q (u ∷ us) h k = ((h.0, k.0), All-both P Q us h.1 k.1)

-- What is known of a session that was read from the tables, while its row may be written.
pub record IsKnown (u : UploadSession) (db : Db) : Type 0 where
  pub shape : All (λ v. v.id ≡ u.id → SameShape u v) db.uploads
  pub parts : All (IsPartOf u) db.parts
  pub old : u.id < db.next_id

pub get_upload-IsKnown :
    (t : UploadSession → Bool) (u : UploadSession) (db : Db)
    → find t db.uploads ≡ some u
    → IsSound db
    → IsKnown u db
get_upload-IsKnown t u db found h = record {
  shape = find_unique (SameShape u) t db.uploads h.distinct found (refl, refl, refl);
  parts = find-All (λ v. All (IsPartOf v) db.parts) t db.uploads h.parts found;
  old = find-All (λ v. v.id < db.next_id) t db.uploads h.old_uploads found;
}

pub save_upload-IsKnown :
    (now : Time) (u u' : UploadSession) (db : Db)
    → SameShape u u'
    → IsKnown u db
    → IsKnown u (save_upload now u' db)
unfolding save_upload
save_upload-IsKnown now u u' db s h = record {
  shape = write_upload-All (λ v. v.id ≡ u.id → SameShape u v) now u' db.uploads (λ _. s) h.shape;
  parts = h.parts;
  old = h.old;
}

pub IsKnown-shape : (u u' : UploadSession) (db : Db) → SameShape u u' → IsKnown u db → IsKnown u' db
IsKnown-shape u u' db s h = record {
  shape =
      map_All (λ v. v.id ≡ u.id → SameShape u v) (λ v. v.id ≡ u'.id → SameShape u' v) db.uploads
        (λ v k e. ground (arith, k (e ∙ sym s.0))) h.shape;
  parts = IsPartOf-shape u u' db.parts s h.parts;
  old = ground (arith, h.old);
}

IsPartOf-known :
    (u v : UploadSession) (new : UploadPart)
    → IsPartOf u new
    → new.upload_id ≡ u.id
    → (v.id ≡ u.id → SameShape u v)
    → IsPartOf v new
IsPartOf-known u v new fits owner s e =
    let (_, parts, size) = s (sym e ∙ owner) in ground (arith, fits owner)

-- The new row of a part, of a session that is known, keeps the invariant.
pub upsert_part-IsSound :
    (dialect : Dialect) (new : UploadPart) (u : UploadSession) (db : Db)
    → IsKnown u db
    → new.upload_id ≡ u.id
    → IsPartOf u new
    → IsSound db
    → IsSound (upsert_part dialect new db)
upsert_part-IsSound dialect new u db known owner fits h =
    let (same_uploads, same_next, same_files) = upsert_part-same new db dialect in
    record {
      distinct = rw same_uploads h.distinct;
      unique = upsert_part-AreUnique new db dialect h.unique;
      parts = rw same_uploads (
          map_All (λ v. (v.id ≡ u.id → SameShape u v) × All (IsPartOf v) db.parts)
            (λ v. All (IsPartOf v) (upsert_part dialect new db).parts) db.uploads
            (λ v k.
              upsert_part-All new db dialect (IsPartOf v) (IsPartOf-known u v new fits owner k.0)
                (IsPartOf-conflict v new) k.1)
            (All-both (λ v. v.id ≡ u.id → SameShape u v) (λ v. All (IsPartOf v) db.parts) db.uploads
              known.shape h.parts));
      old_uploads = rw same_uploads (rw same_next h.old_uploads);
      old_parts = rw same_next (
          upsert_part-All new db dialect (λ p. p.upload_id < db.next_id) (rw owner known.old)
            (λ p e k. k) h.old_parts);
      old_files = rw same_files (rw same_next h.old_files);
    }

pub upsert_part-IsKnown :
    (dialect : Dialect) (new : UploadPart) (u : UploadSession) (db : Db)
    → IsPartOf u new
    → IsKnown u db
    → IsKnown u (upsert_part dialect new db)
upsert_part-IsKnown dialect new u db fits known =
    let (same_uploads, same_next, same_files) = upsert_part-same new db dialect in
    record {
      shape = rw same_uploads known.shape;
      parts =
          upsert_part-All new db dialect (IsPartOf u) fits (IsPartOf-conflict u new) known.parts;
      old = rw same_next known.old;
    }

-- The methods change only the status and the times of a session that they read.
pub save_upload-keeps :
    (now : Time) (u u' : UploadSession) (db : Db)
    → SameShape u u'
    → IsSound db × IsKnown u db
    → IsSound (save_upload now u' db) × IsKnown u (save_upload now u' db)
save_upload-keeps now u u' db s h =
    (save_upload-IsSound now u u' db s h.1.parts h.1.old h.0, save_upload-IsKnown now u u' db s h.1)

pub upsert_part-keeps :
    (dialect : Dialect) (new : UploadPart) (u : UploadSession) (db : Db)
    → IsPartOf u new
    → new.upload_id ≡ u.id
    → IsSound db × IsKnown u db
    → IsSound (upsert_part dialect new db) × IsKnown u (upsert_part dialect new db)
upsert_part-keeps dialect new u db fits owner h = (
  upsert_part-IsSound dialect new u db h.1 owner fits h.0,
  upsert_part-IsKnown dialect new u db fits h.1,
)
