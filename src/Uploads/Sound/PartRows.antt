-- ===== src/Uploads/Sound/PartRows.antt =====
-- app/db/repositories/part_repository.py: what both dialects of the upsert keep of the rows of parts.
use pyupload_x.Base.{
  ℕ, ◌≡◌, refl, inl, inr, true, false, ◌||◌, List, [], ◌∷◌, ◌++◌, arith, Bool-cases, any, all, All,
  All-append,
}
use pyupload_x.Db.Rows.{UploadSession, UploadPart}
use pyupload_x.Db.Uploads.{
  Dialect, postgresql, sqlite, same_part, conflict_update, upsert_postgresql, replace_part,
  upsert_sqlite, upsert_part,
}
use pyupload_x.Db.{Db}
use pyupload_x.Uploads.Sound.{IsPartOf, AreUnique}

module _ (new : UploadPart) where
  upsert_postgresql-All :
      (P : UploadPart → Type 0) (ps : List UploadPart)
      → P new
      → ((p : UploadPart)
          → same_part new.upload_id new.part_number p ≡ true
          → P p
          → P (conflict_update new p))
      → All P ps
      → All P (upsert_postgresql new ps)
  unfolding upsert_postgresql
  upsert_postgresql-All P [] h k all = (h, tt)
  upsert_postgresql-All P (p ∷ ps) h k all =
      elim (Bool-cases (same_part new.upload_id new.part_number p)) [
        | inl e ↦ rw e (k p e all.0, all.1)
        | inr e ↦ rw e (all.0, upsert_postgresql-All P ps h k all.1)
      ]

  replace_part-All :
      (P : UploadPart → Type 0) (ps : List UploadPart)
      → P new
      → All P ps
      → All P (replace_part new ps)
  replace_part-All P [] h all = tt
  replace_part-All P (p ∷ ps) h all =
      elim (Bool-cases (same_part new.upload_id new.part_number p)) [
        | inl e ↦ rw e (h, replace_part-All P ps h all.1)
        | inr e ↦ rw e (all.0, replace_part-All P ps h all.1)
      ]

  upsert_sqlite-All :
      (P : UploadPart → Type 0) (ps : List UploadPart)
      → P new
      → All P ps
      → All P (upsert_sqlite new ps)
  unfolding upsert_sqlite
  upsert_sqlite-All P ps h all =
      elim (Bool-cases (any (same_part new.upload_id new.part_number) ps)) [
        | inl e ↦ rw e (replace_part-All P ps h all)
        | inr e ↦ rw e (All-append P ps (new ∷ []) all (h, tt))
      ]

  any-same-upsert_postgresql :
      (a n : ℕ) (ps : List UploadPart)
      → any (same_part a n) (upsert_postgresql new ps)
        ≡ ((any (same_part a n) ps) || same_part a n new)
  unfolding upsert_postgresql
  any-same-upsert_postgresql a n [] = ground arith
  any-same-upsert_postgresql a n (p ∷ ps) = ground (arith, any-same-upsert_postgresql a n ps)

  AreUnique-upsert_postgresql :
      (ps : List UploadPart) → AreUnique ps → AreUnique (upsert_postgresql new ps)
  unfolding upsert_postgresql
  AreUnique-upsert_postgresql [] h = (refl, tt)
  AreUnique-upsert_postgresql (p ∷ ps) h =
      elim (Bool-cases (same_part new.upload_id new.part_number p)) [
        | inl e ↦ rw e (h.0, h.1)
        | inr e ↦ rw e (
          ground (arith, any-same-upsert_postgresql p.upload_id p.part_number ps),
          AreUnique-upsert_postgresql ps h.1,
        )
      ]

  any-same-replace :
      (a n : ℕ) (ps : List UploadPart)
      → any (same_part a n) (replace_part new ps) ≡ any (same_part a n) ps
  any-same-replace a n [] = refl
  any-same-replace a n (p ∷ ps) = ground (arith, any-same-replace a n ps)

  AreUnique-replace : (ps : List UploadPart) → AreUnique ps → AreUnique (replace_part new ps)
  AreUnique-replace [] h = tt
  AreUnique-replace (p ∷ ps) h = elim (Bool-cases (same_part new.upload_id new.part_number p)) [
    | inl e ↦ rw e (
      rw (any-same-replace new.upload_id new.part_number ps) (ground arith),
      AreUnique-replace ps h.1,
    )
    | inr e ↦
        rw e (rw (any-same-replace p.upload_id p.part_number ps) h.0, AreUnique-replace ps h.1)
  ]

  any-same-append :
      (a n : ℕ) (ps : List UploadPart)
      → any (same_part a n) (ps ++ new ∷ []) ≡ ((any (same_part a n) ps) || same_part a n new)
  any-same-append a n [] = ground arith
  any-same-append a n (p ∷ ps) = ground (arith, any-same-append a n ps)

  AreUnique-append :
      (ps : List UploadPart)
      → any (same_part new.upload_id new.part_number) ps ≡ false
      → AreUnique ps
      → AreUnique (ps ++ new ∷ [])
  AreUnique-append [] e h = (refl, tt)
  AreUnique-append (p ∷ ps) e h = (
    ground (arith, any-same-append p.upload_id p.part_number ps),
    AreUnique-append ps (ground arith) h.1,
  )

  AreUnique-upsert_sqlite : (ps : List UploadPart) → AreUnique ps → AreUnique (upsert_sqlite new ps)
  unfolding upsert_sqlite
  AreUnique-upsert_sqlite ps h =
      elim (Bool-cases (any (same_part new.upload_id new.part_number) ps)) [
        | inl e ↦ rw e (AreUnique-replace ps h)
        | inr e ↦ rw e (AreUnique-append ps e h)
      ]

pub IsPartOf-conflict :
    (v : UploadSession) (new p : UploadPart)
    → same_part new.upload_id new.part_number p ≡ true
    → IsPartOf v p
    → IsPartOf v (conflict_update new p)
IsPartOf-conflict v new p e h = h

module _ (new : UploadPart) (db : Db) where
  pub upsert_part-All :
      (dialect : Dialect) (P : UploadPart → Type 0)
      → P new
      → ((p : UploadPart)
          → same_part new.upload_id new.part_number p ≡ true
          → P p
          → P (conflict_update new p))
      → All P db.parts
      → All P (upsert_part dialect new db).parts
  unfolding upsert_part
  upsert_part-All postgresql P h k rows = upsert_postgresql-All new P db.parts h k rows
  upsert_part-All sqlite P h k rows = upsert_sqlite-All new P db.parts h rows

  pub upsert_part-AreUnique :
      (dialect : Dialect) → AreUnique db.parts → AreUnique (upsert_part dialect new db).parts
  unfolding upsert_part
  upsert_part-AreUnique postgresql h = AreUnique-upsert_postgresql new db.parts h
  upsert_part-AreUnique sqlite h = AreUnique-upsert_sqlite new db.parts h

  pub upsert_part-same :
      (dialect : Dialect)
      → ((upsert_part dialect new db).uploads ≡ db.uploads)
        × ((upsert_part dialect new db).next_id ≡ db.next_id)
        × ((upsert_part dialect new db).files ≡ db.files)
  unfolding upsert_part
  upsert_part-same postgresql = (refl, refl, refl)
  upsert_part-same sqlite = (refl, refl, refl)
