-- ===== src/Uploads/Sound.antt =====
-- app/services/upload_service.py: what holds of the sessions and their parts in every state of the
-- tables.
pub mod Rows
pub mod PartRows
pub mod Known
pub mod Outcome
pub mod Steps
pub mod Sessions
pub mod Endings
pub mod Runs
use pyupload_x.Base.{◌-◌, ◌*◌, ◌≤◌, ◌<◌, ◌≡◌, false, List, [], ◌∷◌, ◌==◌, any, All}
use pyupload_x.Db.Rows.{UploadSession, UploadPart}
use pyupload_x.Db.Uploads.{same_part}
use pyupload_x.Db.{Db}

-- a row of a session: its number is one of the session's, and its offset follows from the number
abbrev pub IsPartOf : UploadSession → UploadPart → Type 0
IsPartOf u p =
    p.upload_id ≡ u.id
    → (1 ≤ p.part_number)
      × (p.part_number ≤ u.total_parts)
      × (p.offset_bytes ≡ (p.part_number - 1) * u.part_size)

-- the unique constraint on upload and number
abbrev pub AreUnique : List UploadPart → Type 0
AreUnique [] = Unit
AreUnique (p ∷ ps) = (any (same_part p.upload_id p.part_number) ps ≡ false) × AreUnique ps

-- no two sessions have one key
abbrev pub AreDistinct : List UploadSession → Type 0
AreDistinct [] = Unit
AreDistinct (u ∷ us) = (any (λ v. v.id == u.id) us ≡ false) × AreDistinct us

pub record IsSound (db : Db) : Type 0 where
  pub distinct : AreDistinct db.uploads
  pub unique : AreUnique db.parts
  pub parts : All (λ u. All (IsPartOf u) db.parts) db.uploads
  pub old_uploads : All (λ u. u.id < db.next_id) db.uploads
  pub old_parts : All (λ p. p.upload_id < db.next_id) db.parts
  pub old_files : All (λ f. f.id < db.next_id) db.files
