-- ===== src/Uploads/Written.antt =====
-- app/db/repositories/upload_repository.py: a row that was written is the one that is read.
use pyupload_x.Base.{
  ℕ, ◌<◌, ◌≡◌, refl, ap, subst, inl, inr, Bool, true, false, Option, none, some, List, [], ◌∷◌,
  ◌++◌, arith, ◌==◌, ==_refl, Bool-cases, find, any, All, Text, text_eq_refl,
}
use pyupload_x.Errors.{ok}
use pyupload_x.Lifecycle.Mode.{Time}
use pyupload_x.Db.{Db}
use pyupload_x.Db.Rows.{UploadSession, FileObject}
use pyupload_x.Db.Uploads.{is_upload, get_upload, write_upload, save_upload}
use pyupload_x.Db.Files.{is_file, get_file, add_file}
use pyupload_x.Uploads.Sound.{IsSound, AreDistinct}
use pyupload_x.Uploads.Sound.Rows.{find-any-id}

abbrev pub stamped : Time → UploadSession → UploadSession
stamped now u = record u { last_activity_at = now; updated_at = now }

abbrev pub SameOwner : UploadSession → UploadSession → Type 0
SameOwner u v = (u.id ≡ v.id) × (u.tenant_id ≡ v.tenant_id)

is_upload-owner :
    (id : ℕ) (tenant : Option Text) (u v : UploadSession) (now : Time)
    → SameOwner u v
    → is_upload id tenant u ≡ true
    → is_upload id tenant (stamped now v) ≡ true
unfolding is_upload
is_upload-owner id none u v now s h = ground (arith, s.0)
is_upload-owner id (some t) u v now s h = rw (← s.0) (rw (← s.1) h)

find-write :
    (id : ℕ) (tenant : Option Text) (now : Time) (u u' : UploadSession) (us : List UploadSession)
    → SameOwner u u'
    → AreDistinct us
    → find (is_upload id tenant) us ≡ some u
    → find (is_upload id tenant) (write_upload now u' us) ≡ some (stamped now u')
unfolding write_upload
find-write id tenant now u u' [] s d h = cc
find-write id tenant now u u' (v ∷ us) s d h = elim (Bool-cases (is_upload id tenant v)) [
  | inl yes_v ↦
      let same : v ≡ u = ground arith in
      let this : (v.id == u'.id) ≡ true =
        ground (arith, ap (λ (x : UploadSession). x.id) same, s.0) in
      let kept : is_upload id tenant (stamped now u') ≡ true =
        is_upload-owner id tenant u u' now s
          (subst (λ x. is_upload id tenant x ≡ true) same yes_v) in
      rw this (rw kept refl)
  | inr no_v ↦
      let found : find (is_upload id tenant) us ≡ some u = ground arith in
      let other : (v.id == u'.id) ≡ false = ground (arith, clash found, s.0) in
      rw other (rw no_v (find-write id tenant now u u' us s d.1 found))
]
  where
    clash : find (is_upload id tenant) us ≡ some u → (v.id == u.id) ≡ false
    clash found = elim (Bool-cases (v.id == u.id)) [
      | inr e ↦ e
      | inl e ↦
          let same : v.id ≡ u.id = ground arith in
          absurd (
            cc (
              d.0,
              find-any-id (is_upload id tenant) us u found,
              ap (λ (i : ℕ). any (λ w. w.id == i) us) same,
            ))
    ]

pub get_upload-save :
    (id : ℕ) (tenant : Option Text) (now : Time) (u u' : UploadSession) (db : Db)
    → SameOwner u u'
    → IsSound db
    → get_upload db id tenant ≡ some u
    → get_upload (save_upload now u' db) id tenant ≡ some (stamped now u')
unfolding get_upload save_upload
get_upload-save id tenant now u u' db s h e =
    find-write id tenant now u u' db.uploads s h.distinct e

find-append :
    (t : FileObject → Bool) (f : FileObject) (fs : List FileObject)
    → All (λ g. t g ≡ false) fs
    → t f ≡ true
    → find t (fs ++ f ∷ []) ≡ some f
find-append t f [] h e = rw e refl
find-append t f (g ∷ fs) h e = rw h.0 (find-append t f fs h.1 e)

other_files :
    (id : ℕ) (tenant : Text) (fs : List FileObject)
    → All (λ g. g.id < id) fs
    → All (λ g. is_file id (some tenant) g ≡ false) fs
unfolding is_file
other_files id tenant [] h = tt
other_files id tenant (g ∷ fs) h = (ground (arith, h.0), other_files id tenant fs h.1)

is_file-itself : (row : FileObject) → is_file row.id (some row.tenant_id) row ≡ true
unfolding is_file
is_file-itself row = rw (==_refl row.id) (text_eq_refl row.tenant_id)

-- A file that was added is found by its key and tenant.
pub get_file-add :
    (f : FileObject) (db : Db) {g : FileObject} {db' : Db}
    → IsSound db
    → add_file f db ≡ ok (g, db')
    → (get_file db' g.id (some g.tenant_id) ≡ some g)
      × (db'.uploads ≡ db.uploads)
      × (g ≡ record f { id = db.next_id })
unfolding add_file get_file
get_file-add f db {g} {db'} h e =
    let row : FileObject = record f { id = db.next_id } in
    let same : g ≡ row = ground arith in
    let added : db'.files ≡ db.files ++ row ∷ [] = ground arith in
    (
      rw same (
          rw added (
            find-append (is_file row.id (some row.tenant_id)) row db.files
              (other_files row.id row.tenant_id db.files h.old_files) (is_file-itself row))),
      ground arith,
      same,
    )
