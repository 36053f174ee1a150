-- ===== src/Db/Uploads.antt =====
-- app/db/repositories/upload_repository.py and part_repository.py.
use pyupload_x.Base.{
  ℕ, Bool, ◌&&◌, Option, none, some, List, [], ◌∷◌, ◌++◌, leb, ◌==◌, if◌then◌else◌, select, find,
  any, Text, text_eq,
}
use pyupload_x.Lifecycle.Mode.{Time}
use pyupload_x.Db.Rows.{UploadSession, UploadPart}
use pyupload_x.Db.{Db}

-- `tenant_id` limits the search where it is given
unfoldable pub is_upload : ℕ → Option Text → UploadSession → Bool
is_upload id none u = u.id == id
is_upload id (some tenant) u = (u.id == id) && text_eq u.tenant_id tenant

unfoldable pub get_upload : Db → ℕ → Option Text → Option UploadSession
unfolding is_upload
get_upload db id tenant = find (is_upload id tenant) db.uploads

-- An update of the row with a key; the columns with `onupdate` get the clock.
unfoldable pub write_upload : Time → UploadSession → List UploadSession → List UploadSession
write_upload now u [] = []
write_upload now u (v ∷ vs) =
    if v.id == u.id
    then (record u { last_activity_at = now; updated_at = now }) ∷ vs
    else v ∷ write_upload now u vs

unfoldable pub save_upload : Time → UploadSession → Db → Db
unfolding write_upload
save_upload now u db = record db { uploads = write_upload now u db.uploads }

abbrev pub same_part : ℕ → ℕ → UploadPart → Bool
same_part upload_id number p = (p.upload_id == upload_id) && (p.part_number == number)

-- The update of `on_conflict_do_update` (PostgreSQL): the offset stays.
abbrev pub conflict_update : UploadPart → UploadPart → UploadPart
conflict_update new old = record old {
  size_bytes = new.size_bytes;
  etag = new.etag;
  checksum_sha256 = new.checksum_sha256;
  status = new.status;
}

-- The insert-or-update of PostgreSQL, on the unique pair of upload and number.
unfoldable pub upsert_postgresql : UploadPart → List UploadPart → List UploadPart
upsert_postgresql new [] = new ∷ []
upsert_postgresql new (p ∷ ps) =
    if same_part new.upload_id new.part_number p
    then conflict_update new p ∷ ps
    else p ∷ upsert_postgresql new ps

-- The update of all columns, of every row with the upload and number.
abbrev pub replace_part : UploadPart → List UploadPart → List UploadPart
replace_part new [] = []
replace_part new (p ∷ ps) =
    (if same_part new.upload_id new.part_number p then new else p) ∷ replace_part new ps

-- The branch of other dialects: look the row up, then update or add.
unfoldable pub upsert_sqlite : UploadPart → List UploadPart → List UploadPart
upsert_sqlite new ps =
    if any (same_part new.upload_id new.part_number) ps then replace_part new ps else ps ++ new ∷ []

pub data Dialect : Type 0 where
  postgresql sqlite : Dialect

unfoldable pub upsert_part : Dialect → UploadPart → Db → Db
unfolding upsert_postgresql upsert_sqlite
upsert_part postgresql new db = record db { parts = upsert_postgresql new db.parts }
upsert_part sqlite new db = record db { parts = upsert_sqlite new db.parts }

-- `order_by(UploadPart.part_number)`
unfoldable pub insert_by_number : UploadPart → List UploadPart → List UploadPart
insert_by_number p [] = p ∷ []
insert_by_number p (q ∷ qs) =
    if leb p.part_number q.part_number then p ∷ q ∷ qs else q ∷ insert_by_number p qs

unfoldable pub order_by_number : List UploadPart → List UploadPart
unfolding insert_by_number
order_by_number [] = []
order_by_number (p ∷ ps) = insert_by_number p (order_by_number ps)

unfoldable pub list_parts_for_upload : Db → ℕ → List UploadPart
unfolding order_by_number
list_parts_for_upload db upload_id =
    order_by_number (select (λ p. p.upload_id == upload_id) db.parts)
