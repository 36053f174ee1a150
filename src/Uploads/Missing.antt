-- ===== src/Uploads/Missing.antt =====
-- `complete` of app/services/upload_service.py: the answer where parts are missing.
use pyupload_x.Base.{
  ℕ, zero, suc, ◌+◌, ◌≤◌, ◌<◌, ◌≡◌, ap, ◌∙◌, inl, inr, Bool, true, false, not, some, List, [], ◌∷◌,
  arith, ltb, ◌==◌, Bool-cases, length, select, any, All, contains, range,
}
use pyupload_x.Errors.{err, missing_parts}
use pyupload_x.Db.{Db}
use pyupload_x.Db.Rows.{UploadSession}
use pyupload_x.Db.Uploads.{get_upload, list_parts_for_upload}
use pyupload_x.Request.{World, Identity, App}
use pyupload_x.Uploads.Parts.{get_session}
use pyupload_x.Uploads.Complete.{
  committed_parts, numbers_of, missing_from, complete, complete_open, complete_or_return,
  existing_file,
}
use pyupload_x.Uploads.Complete.Checks.{ended_error, is_open}
use pyupload_x.Uploads.Sound.{IsSound}
use pyupload_x.Uploads.Sound.Steps.{found-IsKnown}
use pyupload_x.Uploads.Completion.{is_row, contains-kept, committed_parts-All}

contains-select :
    (t : ℕ → Bool) (n lo k : ℕ)
    → lo ≤ n
    → n < lo + k
    → t n ≡ true
    → contains n (select t (range lo k)) ≡ true
contains-select t n lo zero low high h = absurd (omega arith)
contains-select t n lo (suc k) low high h = elim (Bool-cases (lo == n)) [
  | inl e ↦ let yes : t lo ≡ true = ap t (ground arith) ∙ h in rw yes (ground arith)
  | inr e ↦ elim (Bool-cases (t lo)) [
    | inl f ↦ rw f (ground (arith, contains-select t n (suc lo) k (ground arith) (omega arith) h))
    | inr f ↦ rw f (contains-select t n (suc lo) k (ground arith) (omega arith) h)
  ]
]

All-select :
    (t : ℕ → Bool) (lo k : ℕ)
    → All (λ m. (lo ≤ m) × (m < lo + k) × (t m ≡ true)) (select t (range lo k))
All-select t lo k = shifted lo k (omega arith) (omega arith)
  where
    shifted :
        (a j : ℕ)
        → lo ≤ a
        → a + j ≤ lo + k
        → All (λ m. (lo ≤ m) × (m < lo + k) × (t m ≡ true)) (select t (range a j))
    shifted a zero low high = tt
    shifted a (suc j) low high = elim (Bool-cases (t a)) [
      | inl e ↦ rw e ((low, omega arith, e), shifted (suc a) j (omega arith) (omega arith))
      | inr e ↦ rw e (shifted (suc a) j (omega arith) (omega arith))
    ]

-- a number of a session that has no committed row
abbrev pub IsMissing : UploadSession → Db → ℕ → Type 0
IsMissing u db m = (1 ≤ m) × (m ≤ u.total_parts) × (any (is_row u.id m) db.parts ≡ false)

All-IsMissing :
    (u : UploadSession) (db : Db) (ms : List ℕ)
    → All
        (λ m.
          (1 ≤ m)
          × (m < 1 + u.total_parts)
          × (not (contains m (numbers_of (committed_parts db u.id))) ≡ true))
        ms
    → All (IsMissing u db) ms
unfolding committed_parts list_parts_for_upload
All-IsMissing u db [] h = tt
All-IsMissing u db (m ∷ ms) h = (
  (h.0.0, omega (arith, h.0.1), ground (arith, h.0, contains-kept u.id m db.parts)),
  All-IsMissing u db ms h.1,
)

missing_from-IsMissing :
    (u : UploadSession) (db : Db)
    → All (IsMissing u db) (missing_from u.total_parts (numbers_of (committed_parts db u.id)))
unfolding missing_from
missing_from-IsMissing u db =
    All-IsMissing u db (missing_from u.total_parts (numbers_of (committed_parts db u.id)))
      (All-select (λ m. not (contains m (numbers_of (committed_parts db u.id)))) 1 u.total_parts)

missing-contains :
    (u : UploadSession) (db : Db) (n : ℕ)
    → IsMissing u db n
    → contains n (missing_from u.total_parts (numbers_of (committed_parts db u.id))) ≡ true
unfolding missing_from committed_parts list_parts_for_upload
missing-contains u db n h =
    contains-select (λ m. not (contains m (numbers_of (committed_parts db u.id)))) n 1 u.total_parts
      h.0 (omega (arith, h.1)) (ground (arith, h.2, contains-kept u.id n db.parts))

module _ {S : Type 0} (app : App S) (identity : Identity) where
  lacking :
      (u : UploadSession) (w : World S)
      → is_open u.status ≡ true
      → ltb (length (committed_parts w.db u.id)) u.total_parts ≡ true
      → complete_or_return app identity u (existing_file app identity u w.db) w ≡ (
        err (missing_parts (missing_from u.total_parts (numbers_of (committed_parts w.db u.id)))),
        w,
      )
  unfolding existing_file ended_error complete_open
  lacking u w live few = ground arith

  -- Of an open session that lacks the row of a part, in sound tables, completion fails with exactly
  -- the numbers that lack theirs, this one among them, and changes nothing.
  pub complete-IsMissing :
      (id : ℕ) (w : World S) (u : UploadSession) (n : ℕ)
      → IsSound w.db
      → get_upload w.db id (some identity.tenant_id) ≡ some u
      → is_open u.status ≡ true
      → IsMissing u w.db n
      → (ms : List ℕ) × (complete app identity id w ≡ (err (missing_parts ms), w))
        × (contains n ms ≡ true)
        × All (IsMissing u w.db) ms
  unfolding complete get_session
  complete-IsMissing id w u n sound found live lacks = (
    missing_from u.total_parts (numbers_of (committed_parts w.db u.id)),
    rw found (lacking u w live few),
    missing-contains u w.db n lacks,
    missing_from-IsMissing u w.db,
  )
    where
      clash : any (is_row u.id n) w.db.parts ≡ true → ⊥
      clash e = cc (lacks.2, e)

      few : ltb (length (committed_parts w.db u.id)) u.total_parts ≡ true
      few = elim (Bool-cases (ltb (length (committed_parts w.db u.id)) u.total_parts)) [
        | inl e ↦ e
        | inr e ↦ absurd (
            clash (
              committed_parts-All u w.db n sound.unique
                (found-IsKnown id (some identity.tenant_id) u w.db found sound).parts e lacks.0
                lacks.1))
      ]
