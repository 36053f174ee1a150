-- ===== src/Files/Removal.antt =====
-- `delete` of app/services/file_service.py: what later requests meet.
use pyupload_x.Base.{
  ℕ, ◌≡◌, refl, sym, ap, ◌∙◌, inl, inr, true, false, Option, none, some, List, [], ◌∷◌, arith, ◌==◌,
  Bool-cases, find, Text,
}
use pyupload_x.Base.Int.{ℤ}
use pyupload_x.Errors.{ok, err, file_not_found, file_under_legal_hold}
use pyupload_x.Lifecycle.StateMachine.{LifecycleStatus}
use pyupload_x.Db.Rows.{FileObject, FileStatus, is_deleted}
use pyupload_x.Db.Files.{is_file, get_file, write_file, save_file}
use pyupload_x.Request.{World, Identity, App}
use pyupload_x.Request.Laws.{or_raise-eq-ok, raise_when-eq-ok, call-eq-ok, bind-eq-ok}
use pyupload_x.Uploads.Sound.Rows.{find-test}
use pyupload_x.Retention.Holds.{AreDistinctFiles, find-any}
use pyupload_x.Retention.Service.{get_lifecycle, find_file}
use pyupload_x.Files.Access.{live_file, download_for_link, get, download, delete, presign_download}

abbrev pub SameKey : FileObject → FileObject → Type 0
SameKey f g = (f.id ≡ g.id) × (f.tenant_id ≡ g.tenant_id)

is_file-same :
    (id : ℕ) (tenant : Option Text) (f g : FileObject)
    → SameKey f g
    → is_file id tenant f ≡ is_file id tenant g
unfolding is_file
is_file-same id none f g s = rw s.0 refl
is_file-same id (some t) f g s = rw s.0 (rw s.1 refl)

module _ (id : ℕ) where
  find-write :
      (tenant : Option Text) (f g : FileObject) (fs : List FileObject)
      → SameKey f g
      → AreDistinctFiles fs
      → find (is_file id tenant) fs ≡ some f
      → find (is_file id tenant) (write_file g fs) ≡ some g
  unfolding write_file
  find-write tenant f g [] s d h = cc
  find-write tenant f g (k ∷ ks) s d h = elim (Bool-cases (is_file id tenant k)) [
    | inl hit ↦
        let same : k ≡ f = ground arith in
        let this : (k.id == g.id) ≡ true =
          ground (arith, ap (λ (x : FileObject). x.id) same, s.0) in
        let kept : is_file id tenant g ≡ true =
          sym (is_file-same id tenant f g s) ∙ ap (is_file id tenant) (sym same) ∙ hit in
        rw this (rw kept refl)
    | inr miss ↦
        let found : find (is_file id tenant) ks ≡ some f = ground arith in
        let other : (k.id == g.id) ≡ false = ground (arith, apart found, s.0) in
        rw other (rw miss (find-write tenant f g ks s d.1 found))
  ]
    where
      apart : find (is_file id tenant) ks ≡ some f → (k.id == f.id) ≡ false
      apart found = elim (Bool-cases (k.id == f.id)) [
        | inr e ↦ e
        | inl e ↦
            absurd
              (cc (d.0, find-any (is_file id tenant) (λ x. x.id == k.id) ks f found (ground arith)))
      ]

  -- without a tenant, the same file is found
  find-anywhere :
      (t : Text) (f : FileObject) (fs : List FileObject)
      → AreDistinctFiles fs
      → find (is_file id (some t)) fs ≡ some f
      → find (is_file id none) fs ≡ some f
  unfolding is_file
  find-anywhere t f [] d h = cc
  find-anywhere t f (k ∷ ks) d h = elim (Bool-cases (is_file id (some t) k)) [
    | inl hit ↦ let this : (k.id == id) ≡ true = ground arith in rw this (ground arith)
    | inr miss ↦
        let found : find (is_file id (some t)) ks ≡ some f = ground arith in
        rw (apart found) (find-anywhere t f ks d.1 found)
  ]
    where
      apart : find (is_file id (some t)) ks ≡ some f → (k.id == id) ≡ false
      apart found = elim (Bool-cases (k.id == id)) [
        | inr e ↦ e
        | inl e ↦
            let known = find-test (is_file id (some t)) ks {x = f} found in
            absurd (
              cc
                (d.0, find-any (is_file id (some t)) (λ x. x.id == k.id) ks f found (ground arith)))
      ]

module _ {S : Type 0} (app : App S) (identity : Identity) where
  -- every method of the file service raises that the file does not exist, and changes nothing; the
  -- lifecycle service finds its row, which is marked as deleted
  pub record IsGone (id : ℕ) (w : World S) : Type 0 where
    pub got : get app identity id w ≡ (err file_not_found, w)
    pub downloaded :
        (range : Option Text) → download app identity id range w ≡ (err file_not_found, w)
    pub linked : (range : Option Text) → download_for_link app id range w ≡ (err file_not_found, w)
    pub presigned :
        (expires : Option ℤ) → presign_download app identity id expires w ≡ (err file_not_found, w)
    pub deleted : delete app identity id w ≡ (err file_not_found, w)
    pub marked :
        (g : FileObject) × (get_lifecycle app identity id w ≡ (ok g, w))
        × (g.status ≡ FileStatus.deleted)

  gone :
      (id : ℕ) (f : FileObject) (w : World S)
      → get_file w.db id (some identity.tenant_id) ≡ some f
      → get_file w.db id none ≡ some f
      → f.status ≡ FileStatus.deleted
      → IsGone id w
  unfolding get download download_for_link presign_download delete live_file is_deleted
      get_lifecycle find_file
  gone id f w found anywhere status = record {
    got = rw found (rw status refl);
    downloaded = λ range. rw found (rw status refl);
    linked = λ range. rw anywhere (rw status refl);
    presigned = λ expires. rw found (rw status refl);
    deleted = rw found (rw status refl);
    marked = (f, rw found refl, status);
  }

  live_file-eq-ok :
      (tenant : Option Text) (id : ℕ) (w : World S) (f : FileObject) (v : World S)
      → live_file app tenant id w ≡ (ok f, v)
      → (get_file w.db id tenant ≡ some f) × (v ≡ w)
  unfolding live_file
  live_file-eq-ok tenant id w f v h =
      let (f', found, h1) = or_raise-eq-ok (get_file w.db id tenant) file_not_found _ w h in
      let (_, h2) = raise_when-eq-ok (is_deleted f'.status) file_not_found _ w h1 in
      (found ∙ ground arith, ground arith)

  -- After a deletion that returned, in a table whose keys are distinct, `get`, `download`,
  -- `download_for_link`, `presign_download` and a second `delete` raise that the file does not exist,
  -- and change nothing. The file was not under a legal hold. `get_lifecycle` of the lifecycle service
  -- still returns its row, with the status deleted.
  pub delete-IsGone :
      (id : ℕ) (w : World S) (f : FileObject) (w' : World S)
      → AreDistinctFiles w.db.files
      → get_file w.db id (some identity.tenant_id) ≡ some f
      → delete app identity id w ≡ (ok tt, w')
      → (f.legal_hold ≡ false) × IsGone id w'
  unfolding delete get_file save_file
  delete-IsGone id w f w' distinct found h =
      let (f', v, read, h1) = bind-eq-ok (live_file app (some identity.tenant_id) id) _ w h in
      let (found', back) = live_file-eq-ok (some identity.tenant_id) id w f' v read in
      let same : f' ≡ f = ground arith in
      let (free, h2) = raise_when-eq-ok f'.legal_hold file_under_legal_hold _ v h1 in
      let (_, store, _, h3) =
        call-eq-ok (app.storage.delete_object f'.bucket f'.object_key) _ v h2 in
      let g : FileObject = record f' {
        status = FileStatus.deleted;
        deleted_at = some v.now;
        lifecycle_status = LifecycleStatus.deleted;
      } in
      let ends : w'.db.files ≡ write_file g v.db.files = ground arith in
      let files : w'.db.files ≡ write_file g w.db.files =
        ends ∙ ap (λ (x : World S). write_file g x.db.files) back in
      (
        ap (λ (x : FileObject). x.legal_hold) (sym same) ∙ free,
        gone id g w'
            (ap (find (is_file id (some identity.tenant_id))) files
              ∙ find-write id (some identity.tenant_id) f' g w.db.files (refl, refl) distinct
                  found')
            (ap (find (is_file id none)) files
              ∙ find-write id none f' g w.db.files (refl, refl) distinct
                  (find-anywhere id identity.tenant_id f' w.db.files distinct found'))
            refl,
      )
