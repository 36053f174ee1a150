-- ===== src/Uploads/Completion.antt =====
-- `complete` of app/services/upload_service.py: when all parts are there.
use pyupload_x.Base.{
  ℕ, ◌≤◌, ◌≡◌, refl, sym, ap, ◌∙◌, inl, inr, Bool, true, false, ◌&&◌, ◌||◌, List, [], ◌∷◌, arith,
  ltb, leb, ◌==◌, Bool-cases, length, select, any, All, contains, length-map,
}
use pyupload_x.Base.Counting.{AreOnce, AreUpTo, contains-all}
use pyupload_x.Db.{Db}
use pyupload_x.Db.Rows.{UploadSession, UploadPart, is_committed}
use pyupload_x.Db.Uploads.{same_part, insert_by_number, order_by_number, list_parts_for_upload}
use pyupload_x.Uploads.Complete.{committed_parts, numbers_of}
use pyupload_x.Uploads.Sound.{IsPartOf, AreUnique}

-- a committed row for a number of a session
abbrev pub is_row : ℕ → ℕ → UploadPart → Bool
is_row id n p = same_part id n p && is_committed p.status

abbrev kept : List UploadPart → List UploadPart
kept ps = select (λ p. is_committed p.status) ps

contains-insert :
    (n : ℕ) (p : UploadPart) (qs : List UploadPart)
    → contains n (numbers_of (insert_by_number p qs))
      ≡ (p.part_number == n || contains n (numbers_of qs))
unfolding insert_by_number
contains-insert n p [] = ground arith
contains-insert n p (q ∷ qs) = ground (arith, contains-insert n p qs)

contains-kept-insert :
    (n : ℕ) (p : UploadPart) (qs : List UploadPart)
    → contains n (numbers_of (kept (insert_by_number p qs)))
      ≡ ((is_committed p.status && p.part_number == n) || contains n (numbers_of (kept qs)))
unfolding insert_by_number
contains-kept-insert n p [] = ground arith
contains-kept-insert n p (q ∷ qs) = ground (arith, contains-kept-insert n p qs)

module _ (id : ℕ) where
  abbrev of_upload : List UploadPart → List UploadPart
  of_upload ps = order_by_number (select (λ p. p.upload_id == id) ps)

  contains-of_upload :
      (n : ℕ) (ps : List UploadPart)
      → contains n (numbers_of (of_upload ps)) ≡ any (same_part id n) ps
  unfolding order_by_number
  contains-of_upload n [] = refl
  contains-of_upload n (p ∷ ps) = elim (Bool-cases (p.upload_id == id)) [
    | inl e ↦ rw e (contains-insert n p (of_upload ps) ∙ ground (arith, contains-of_upload n ps))
    | inr e ↦ rw e (contains-of_upload n ps)
  ]

  pub contains-kept :
      (n : ℕ) (ps : List UploadPart)
      → contains n (numbers_of (kept (of_upload ps))) ≡ any (is_row id n) ps
  unfolding order_by_number
  contains-kept n [] = refl
  contains-kept n (p ∷ ps) = elim (Bool-cases (p.upload_id == id)) [
    | inl e ↦ rw e (contains-kept-insert n p (of_upload ps) ∙ ground (arith, contains-kept n ps))
    | inr e ↦ rw e (contains-kept n ps)
  ]

  AreOnce-insert :
      (p : UploadPart) (qs : List UploadPart)
      → contains p.part_number (numbers_of qs) ≡ false
      → AreOnce (numbers_of qs)
      → AreOnce (numbers_of (insert_by_number p qs))
  unfolding insert_by_number
  AreOnce-insert p [] h k = (refl, tt)
  AreOnce-insert p (q ∷ qs) h k = elim (Bool-cases (leb p.part_number q.part_number)) [
    | inl e ↦ rw e (h, k)
    | inr e ↦ rw e (
      ground (arith, contains-insert q.part_number p qs, k.0),
      AreOnce-insert p qs (ground arith) k.1,
    )
  ]

  AreOnce-of_upload : (ps : List UploadPart) → AreUnique ps → AreOnce (numbers_of (of_upload ps))
  unfolding order_by_number
  AreOnce-of_upload [] h = tt
  AreOnce-of_upload (p ∷ ps) h = elim (Bool-cases (p.upload_id == id)) [
    | inl e ↦
        let same : p.upload_id ≡ id = ground arith in
        rw e (
          AreOnce-insert p (of_upload ps)
            (contains-of_upload p.part_number ps
              ∙ ap (λ (i : ℕ). any (same_part i p.part_number) ps) (sym same)
              ∙ h.0)
            (AreOnce-of_upload ps h.1))
    | inr e ↦ rw e (AreOnce-of_upload ps h.1)
  ]

contains-kept-false :
    (n : ℕ) (ps : List UploadPart)
    → contains n (numbers_of ps) ≡ false
    → contains n (numbers_of (kept ps)) ≡ false
contains-kept-false n [] h = refl
contains-kept-false n (p ∷ ps) h = ground (arith, contains-kept-false n ps)

AreOnce-kept : (ps : List UploadPart) → AreOnce (numbers_of ps) → AreOnce (numbers_of (kept ps))
AreOnce-kept [] h = tt
AreOnce-kept (p ∷ ps) h = elim (Bool-cases (is_committed p.status)) [
  | inl e ↦ rw e (contains-kept-false p.part_number ps h.0, AreOnce-kept ps h.1)
  | inr e ↦ rw e (AreOnce-kept ps h.1)
]

AreUpTo-insert :
    (top : ℕ) (p : UploadPart) (qs : List UploadPart)
    → (1 ≤ p.part_number) × (p.part_number ≤ top)
    → AreUpTo top (numbers_of qs)
    → AreUpTo top (numbers_of (insert_by_number p qs))
unfolding insert_by_number
AreUpTo-insert top p [] h k = (h, tt)
AreUpTo-insert top p (q ∷ qs) h k = elim (Bool-cases (leb p.part_number q.part_number)) [
  | inl e ↦ rw e (h, k)
  | inr e ↦ rw e (k.0, AreUpTo-insert top p qs h k.1)
]

AreUpTo-of_upload :
    (u : UploadSession) (ps : List UploadPart)
    → All (IsPartOf u) ps
    → AreUpTo u.total_parts (numbers_of (of_upload u.id ps))
unfolding order_by_number
AreUpTo-of_upload u [] h = tt
AreUpTo-of_upload u (p ∷ ps) h = elim (Bool-cases (p.upload_id == u.id)) [
  | inl e ↦
      let (low, high, _) = h.0 (ground arith) in
      rw e (
        AreUpTo-insert u.total_parts p (of_upload u.id ps) (low, high) (AreUpTo-of_upload u ps h.1))
  | inr e ↦ rw e (AreUpTo-of_upload u ps h.1)
]

AreUpTo-kept :
    (top : ℕ) (ps : List UploadPart)
    → AreUpTo top (numbers_of ps)
    → AreUpTo top (numbers_of (kept ps))
AreUpTo-kept top [] h = tt
AreUpTo-kept top (p ∷ ps) h = elim (Bool-cases (is_committed p.status)) [
  | inl e ↦ rw e (h.0, AreUpTo-kept top ps h.1)
  | inr e ↦ rw e (AreUpTo-kept top ps h.1)
]

-- As many committed rows as a session has parts are a row for each.
pub committed_parts-All :
    (u : UploadSession) (db : Db) (n : ℕ)
    → AreUnique db.parts
    → All (IsPartOf u) db.parts
    → ltb (length (committed_parts db u.id)) u.total_parts ≡ false
    → 1 ≤ n
    → n ≤ u.total_parts
    → any (is_row u.id n) db.parts ≡ true
unfolding committed_parts list_parts_for_upload
committed_parts-All u db n once own many low high =
    let ns : List ℕ = numbers_of (kept (of_upload u.id db.parts)) in
    sym (contains-kept u.id n db.parts)
    ∙ contains-all u.total_parts n ns
        (AreOnce-kept (of_upload u.id db.parts) (AreOnce-of_upload u.id db.parts once))
        (AreUpTo-kept u.total_parts (of_upload u.id db.parts) (AreUpTo-of_upload u db.parts own))
        (rw (length-map (λ (p : UploadPart). p.part_number) (kept (of_upload u.id db.parts)))
          (ground arith))
        low high
