-- ===== src/Uploads/Sound/Rows.antt =====
-- The updates of single rows keep the invariant of the sessions.
use pyupload_x.Base.{
  ℕ, ◌<◌, ◌≡◌, refl, sym, ap, subst, inl, inr, Bool, true, false, some, List, [], ◌∷◌, arith, ◌==◌,
  Bool-cases, find, any, All,
}
use pyupload_x.Lifecycle.Mode.{Time}
use pyupload_x.Db.Rows.{UploadSession, UploadPart}
use pyupload_x.Db.Uploads.{write_upload, save_upload}
use pyupload_x.Db.{Db}
use pyupload_x.Uploads.Sound.{IsPartOf, AreDistinct, IsSound}

module _ {ℓ} {A : Type ℓ} where
  pub find-All :
      (P : A → Type 0) (t : A → Bool) (xs : List A) {x : A} → All P xs → find t xs ≡ some x → P x
  find-All P t [] h e = cc
  find-All P t (y ∷ xs) {x} h e = elim (Bool-cases (t y)) [
    | inl yes_y ↦ subst P (ground arith) h.0
    | inr no_y ↦ find-All P t xs h.1 (ground arith)
  ]

  pub find-test : (t : A → Bool) (xs : List A) {x : A} → find t xs ≡ some x → t x ≡ true
  find-test t [] e = cc
  find-test t (y ∷ xs) {x} e = elim (Bool-cases (t y)) [
    | inl yes_y ↦ subst (λ z. t z ≡ true) (ground arith) yes_y
    | inr no_y ↦ find-test t xs (ground arith)
  ]

-- A row may be written where the new row satisfies what all rows do.
pub write_upload-All :
    (P : UploadSession → Type 0) (now : Time) (u : UploadSession) (us : List UploadSession)
    → P (record u { last_activity_at = now; updated_at = now })
    → All P us
    → All P (write_upload now u us)
unfolding write_upload
write_upload-All P now u [] h k = tt
write_upload-All P now u (v ∷ us) h k = elim (Bool-cases (v.id == u.id)) [
  | inl e ↦ rw e (h, k.1)
  | inr e ↦ rw e (k.0, write_upload-All P now u us h k.1)
]

-- What is kept of a session when its row is written.
abbrev pub SameShape : UploadSession → UploadSession → Type 0
SameShape u v = (u.id ≡ v.id) × (u.total_parts ≡ v.total_parts) × (u.part_size ≡ v.part_size)

pub IsPartOf-shape :
    (u v : UploadSession) (ps : List UploadPart)
    → SameShape u v
    → All (IsPartOf u) ps
    → All (IsPartOf v) ps
IsPartOf-shape u v [] s h = tt
IsPartOf-shape u v (p ∷ ps) s h = (λ e. ground (arith, h.0), IsPartOf-shape u v ps s h.1)

pub any-id-write :
    (now : Time) (id : ℕ) (u : UploadSession) (us : List UploadSession)
    → any (λ v. v.id == id) (write_upload now u us) ≡ any (λ v. v.id == id) us
unfolding write_upload
any-id-write now id u [] = refl
any-id-write now id u (v ∷ us) = ground (arith, any-id-write now id u us)

AreDistinct-write :
    (now : Time) (u : UploadSession) (us : List UploadSession)
    → AreDistinct us
    → AreDistinct (write_upload now u us)
unfolding write_upload
AreDistinct-write now u [] h = tt
AreDistinct-write now u (v ∷ us) h = elim (Bool-cases (v.id == u.id)) [
  | inl e ↦ rw e (ground arith, h.1)
  | inr e ↦ rw e (rw (any-id-write now v.id u us) h.0, AreDistinct-write now u us h.1)
]

-- Writing the row of a session that was found, in the same shape, keeps the invariant.
pub save_upload-IsSound :
    (now : Time) (u u' : UploadSession) (db : Db)
    → SameShape u u'
    → All (IsPartOf u) db.parts
    → u.id < db.next_id
    → IsSound db
    → IsSound (save_upload now u' db)
unfolding save_upload
save_upload-IsSound now u u' db s own old h = record {
  distinct = AreDistinct-write now u' db.uploads h.distinct;
  unique = h.unique;
  parts =
      write_upload-All (λ v. All (IsPartOf v) db.parts) now u' db.uploads
        (IsPartOf-shape u (record u' { last_activity_at = now; updated_at = now }) db.parts s own)
        h.parts;
  old_uploads =
      write_upload-All (λ v. v.id < db.next_id) now u' db.uploads (ground arith) h.old_uploads;
  old_parts = h.old_parts;
  old_files = h.old_files;
}

-- The sessions that have the key of a session found among them are that one.
any-id-All :
    (id : ℕ) (P : UploadSession → Type 0) (us : List UploadSession)
    → any (λ v. v.id == id) us ≡ false
    → All (λ v. v.id ≡ id → P v) us
any-id-All id P [] h = tt
any-id-All id P (u ∷ us) h = (λ e. absurd (ground arith), any-id-All id P us (ground arith))

pub find-any-id :
    (t : UploadSession → Bool) (us : List UploadSession) (u : UploadSession)
    → find t us ≡ some u
    → any (λ v. v.id == u.id) us ≡ true
find-any-id t [] u e = cc
find-any-id t (v ∷ us) u e = elim (Bool-cases (t v)) [
  | inl f ↦ ground arith
  | inr f ↦
      let found : find t us ≡ some u = ground arith in ground (arith, find-any-id t us u found)
]

pub find_unique :
    (P : UploadSession → Type 0) (t : UploadSession → Bool) (us : List UploadSession)
    {u : UploadSession}
    → AreDistinct us
    → find t us ≡ some u
    → P u
    → All (λ v. v.id ≡ u.id → P v) us
find_unique P t [] h e k = tt
find_unique P t (v ∷ us) {u} h e k = elim (Bool-cases (t v)) [
  | inl f ↦
      let same : v ≡ u = ground arith in
      (
        λ _. subst P (sym same) k,
        subst (λ (x : UploadSession). All (λ w. w.id ≡ x.id → P w) us) same
            (any-id-All v.id P us h.0),
      )
  | inr f ↦
      let found : find t us ≡ some u = ground arith in
      (λ same. absurd (clash same (find-any-id t us u found)), find_unique P t us h.1 found k)
]
  where
    clash : v.id ≡ u.id → any (λ w. w.id == u.id) us ≡ true → ⊥
    clash same there = cc (h.0, there, ap (λ (i : ℕ). any (λ w. w.id == i) us) same)
