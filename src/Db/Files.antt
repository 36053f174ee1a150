-- ===== src/Db/Files.antt =====
-- app/db/repositories/file_repository.py: the lookups of files by key.
use pyupload_x.Base.{
  ℕ, ◌+◌, Bool, ◌&&◌, Option, none, some, List, [], ◌∷◌, ◌++◌, ◌==◌, if◌then◌else◌, find, any, Text,
  text_eq,
}
use pyupload_x.Errors.{Result, ok, err, exception, PyException}
use pyupload_x.Db.Rows.{FileObject}
use pyupload_x.Db.{Db}

unfoldable pub is_file : ℕ → Option Text → FileObject → Bool
is_file id none f = f.id == id
is_file id (some tenant) f = (f.id == id) && text_eq f.tenant_id tenant

unfoldable pub get_file : Db → ℕ → Option Text → Option FileObject
unfolding is_file
get_file db id tenant = find (is_file id tenant) db.files

unfoldable pub write_file : FileObject → List FileObject → List FileObject
write_file f [] = []
write_file f (g ∷ gs) = if g.id == f.id then f ∷ gs else g ∷ write_file f gs

unfoldable pub save_file : FileObject → Db → Db
unfolding write_file
save_file f db = record db { files = write_file f db.files }

-- `uq_file_objects_tenant_bucket_key`
unfoldable pub same_object : FileObject → FileObject → Bool
same_object f g =
    text_eq f.tenant_id g.tenant_id
    && text_eq f.bucket g.bucket
    && text_eq f.object_key g.object_key

-- `session.add(file)` and `flush`: the row gets a fresh key, and a second row for an object breaks
-- the unique constraint.
unfoldable pub add_file : FileObject → Db → Result (FileObject × Db)
unfolding same_object
add_file f db =
    let row = record f { id = db.next_id } in
    if any (same_object row) db.files
    then err (exception PyException.integrity_error)
    else ok (row, record db { files = db.files ++ row ∷ []; next_id = db.next_id + 1 })
