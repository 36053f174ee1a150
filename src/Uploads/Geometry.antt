-- ===== src/Uploads/Geometry.antt =====
-- `create_session` of app/services/upload_service.py: the parts of a new session cover its file.
use pyupload_x.Base.{
  ℕ, zero, suc, ◌+◌, ◌-◌, ◌*◌, ◌≤◌, ◌<◌, max, ◌≡◌, inl, inr, true, [], ◌∷◌, ◌++◌, arith,
}
use pyupload_x.Base.Int.{ℤ, pos, negsuc, ◌≤ℤ◌}
use pyupload_x.Errors.{Error, Result-cases, ok, err}
use pyupload_x.Config.{MultipartConfig}
use pyupload_x.Paths.{normalize_relative_path, is_unsafe}
use pyupload_x.Paths.Safety.{IsSafePath, normalize_relative_path-IsSafePath}
use pyupload_x.Lifecycle.StateMachine.{UploadStatus}
use pyupload_x.Db.Rows.{UploadSession}
use pyupload_x.Buckets.{is_bucket_allowed}
use pyupload_x.Request.Settings.{get_max_file_size, get_default_part_size}
use pyupload_x.Request.{World, Identity, App}
use pyupload_x.Uploads.Plan.{NewUpload, Plan, ceil_div, checked_size, part_geometry, given_or, plan}
use pyupload_x.Uploads.Create.{create_session}

ceil_div-covers : (a b : ℕ) → 1 ≤ b → a ≤ ceil_div a b * b
ceil_div-covers a b h = grind arith

ceil_div-tight : (a b : ℕ) → 1 ≤ b → ceil_div a b * b < a + b
ceil_div-tight a b h = grind arith

-- Parts of `part_size` bytes, all but the last full, that hold `total` bytes.
pub record Covers (m : MultipartConfig) (total part_size total_parts : ℕ) : Type 0 where
  pub smallest : m.minimum_part_size_bytes ≤ part_size
  pub largest : part_size ≤ m.maximum_part_size_bytes
  pub proper : 1 ≤ part_size
  pub some_part : 1 ≤ total_parts
  pub few : total_parts ≤ m.maximum_parts
  pub covers : total ≤ total_parts * part_size
  pub tight : (total_parts - 1) * part_size ≤ total

part_geometry-eq :
    (m : MultipartConfig) (total : ℕ) (z : ℤ) {p n : ℕ}
    → part_geometry m total z ≡ ok (p, n)
    → (m.minimum_part_size_bytes ≤ p)
      × (p ≤ m.maximum_part_size_bytes)
      × (1 ≤ p)
      × (n ≡ max 1 (ceil_div total p))
      × (n ≤ m.maximum_parts)
unfolding part_geometry
part_geometry-eq m total (negsuc k) h = ground arith
part_geometry-eq m total (pos k) h =
    (ground arith, ground arith, ground arith, ground arith, ground arith)

tight_bound : (c p total : ℕ) → c * p < total + p → (max 1 c - 1) * p ≤ total
tight_bound zero p total h = omega arith
tight_bound (suc c) p total h = let e : max 1 (suc c) - 1 ≡ c = omega arith in rw e (omega arith)

cover_bound : (c p total : ℕ) → total ≤ c * p → total ≤ max 1 c * p
cover_bound zero p total h = omega arith
cover_bound (suc c) p total h = let e : max 1 (suc c) ≡ suc c = omega arith in rw e h

part_geometry-Covers :
    (m : MultipartConfig) (total : ℕ) (z : ℤ) {p n : ℕ}
    → part_geometry m total z ≡ ok (p, n)
    → Covers m total p n
part_geometry-Covers m total z {p} {n} h =
    let (smallest, largest, proper, count, few) = part_geometry-eq m total z h in
    record {
      smallest = smallest;
      largest = largest;
      proper = proper;
      some_part = omega arith;
      few = few;
      covers = rw count (cover_bound (ceil_div total p) p total (ceil_div-covers total p proper));
      tight = rw count (tight_bound (ceil_div total p) p total (ceil_div-tight total p proper));
    }

checked_size-eq :
    (maximum total : ℤ) {n : ℕ}
    → checked_size maximum total ≡ ok n
    → (total ≡ pos n) × (pos n ≤ℤ maximum)
unfolding checked_size
checked_size-eq maximum total h = ground arith

same_geometry :
    {m : MultipartConfig} {total total' part_size part_size' total_parts total_parts' : ℕ}
    → total ≡ total'
    → part_size ≡ part_size'
    → total_parts ≡ total_parts'
    → Covers m total part_size total_parts
    → Covers m total' part_size' total_parts'
same_geometry p q r h = rw (← p) (rw (← q) (rw (← r) h))

module _ {S : Type 0} (app : App S) (identity : Identity) (r : NewUpload) where
  -- what the checks leave of a request
  pub record IsPlanned (w : World S) (p : Plan) : Type 0 where
    pub bucket : is_bucket_allowed app.settings w.db identity.tenant_id r.bucket ≡ true
    pub key : normalize_relative_path app.nfc 64 1024 r.object_key ≡ ok p.key
    pub size : r.total_size ≡ pos p.total_size
    pub fits : pos p.total_size ≤ℤ get_max_file_size app.settings w.db
    pub parts : Covers app.settings.uploads.multipart p.total_size p.part_size p.total_parts

  pub plan-IsPlanned : (w : World S) (p : Plan) → plan app identity r w ≡ ok p → IsPlanned w p
  unfolding plan
  plan-IsPlanned w p h = record {
    bucket = ground arith;
    key = ground arith;
    size = ground (
      arith,
      checked_size-eq (get_max_file_size app.settings w.db) r.total_size {n = p.total_size},
    );
    fits = ground (
      arith,
      checked_size-eq (get_max_file_size app.settings w.db) r.total_size {n = p.total_size},
    );
    parts =
        part_geometry-Covers app.settings.uploads.multipart p.total_size
          (given_or r.part_size (get_default_part_size app.settings w.db)) (ground arith);
  }

  -- What a new session is.
  pub record IsCreated (w : World S) (u : UploadSession) (w' : World S) : Type 0 where
    pub key : IsSafePath is_unsafe 64 1024 u.object_key
    pub size : r.total_size ≡ pos u.total_size
    pub fits : pos u.total_size ≤ℤ get_max_file_size app.settings w.db
    pub parts : Covers app.settings.uploads.multipart u.total_size u.part_size u.total_parts
    pub status : u.status ≡ UploadStatus.initiated
    pub owner : u.tenant_id ≡ identity.tenant_id
    pub fresh : u.id ≡ w.db.next_id
    pub added : w'.db ≡ record w.db { uploads = w.db.uploads ++ u ∷ []; next_id = w.db.next_id + 1 }

  created :
      (w : World S) (u : UploadSession) (w' : World S) (p : Plan)
      → plan app identity r w ≡ ok p
      → create_session app identity r w ≡ (ok u, w')
      → IsCreated w u w'
  unfolding create_session
  created w u w' p e h =
      let planned = plan-IsPlanned w p e in
      record {
        key =
            normalize_relative_path-IsSafePath app.nfc 64 1024 r.object_key u.object_key
              (ground (arith, planned.key));
        size = ground (arith, planned.size);
        fits = ground (arith, planned.fits);
        parts = same_geometry (ground arith) (ground arith) (ground arith) planned.parts;
        status = ground arith;
        owner = ground arith;
        fresh = ground arith;
        added = ground arith;
      }

  refused :
      (w : World S) (u : UploadSession) (w' : World S) (x : Error)
      → plan app identity r w ≡ err x
      → create_session app identity r w ≡ (ok u, w')
      → ⊥
  unfolding create_session
  refused w u w' x e h = ground arith

  -- A session that is created has a safe key, a size that was asked for and is at most the maximum
  -- file size in force, and parts that cover the file: their size and number are within the limits,
  -- together they hold the file, and all but the last do not exceed it. It belongs to the caller's
  -- tenant, is initiated, has a fresh key, and is the only change of the tables.
  pub create_session-IsCreated :
      (w : World S) (u : UploadSession) (w' : World S)
      → create_session app identity r w ≡ (ok u, w')
      → IsCreated w u w'
  create_session-IsCreated w u w' h = elim (Result-cases (plan app identity r w)) [
    | inl (p, e) ↦ created w u w' p e h
    | inr (x, e) ↦ absurd (refused w u w' x e h)
  ]
