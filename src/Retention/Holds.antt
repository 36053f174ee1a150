-- ===== src/Retention/Holds.antt =====
-- app/worker/lifecycle.py: a file under a legal hold.
use pyupload_x.Base.{
  ℕ, zero, suc, ◌≡◌, refl, ap, subst, ◌∙◌, inl, inr, Bool, true, false, Option, none, some, List,
  [], ◌∷◌, arith, ◌==◌, Bool-cases, take, select, find, any, All, Text,
}
use pyupload_x.Lifecycle.Mode.{Time}
use pyupload_x.Db.{Db}
use pyupload_x.Db.Rows.{FileObject}
use pyupload_x.Db.Files.{is_file, get_file, write_file, save_file}
use pyupload_x.Request.{World, App}
use pyupload_x.Uploads.Sound.Rows.{find-test}
use pyupload_x.Retention.Worker.{
  is_due, order_by_due, insert_by_due, due_files, act, reported, enqueue, process_file,
  process_each, process_batch,
}

-- a held row among rows with other keys
abbrev pub IsApart : FileObject → FileObject → Type 0
IsApart f g = g.legal_hold ≡ false → (g.id == f.id) ≡ false

module _ (P : FileObject → Type 0) where
  select-All : (t : FileObject → Bool) (fs : List FileObject) → All P fs → All P (select t fs)
  select-All t [] h = tt
  select-All t (f ∷ fs) h = elim (Bool-cases (t f)) [
    | inl e ↦ rw e (h.0, select-All t fs h.1)
    | inr e ↦ rw e (select-All t fs h.1)
  ]

  take-All : (n : ℕ) (fs : List FileObject) → All P fs → All P (take n fs)
  take-All zero fs h = tt
  take-All (suc n) [] h = tt
  take-All (suc n) (f ∷ fs) h = (h.0, take-All n fs h.1)

  insert-All : (f : FileObject) (fs : List FileObject) → P f → All P fs → All P (insert_by_due f fs)
  unfolding insert_by_due
  insert-All f [] p h = (p, tt)
  insert-All f (g ∷ gs) p h = ground (arith, insert-All f gs)

  order-All : (fs : List FileObject) → All P fs → All P (order_by_due fs)
  unfolding order_by_due
  order-All [] h = tt
  order-All (f ∷ fs) h = insert-All f (order_by_due fs) h.0 (order-All fs h.1)

  due_files-All : (now : Time) (n : ℕ) (db : Db) → All P db.files → All P (due_files now n db)
  unfolding due_files
  due_files-All now n db h =
      take-All n (order_by_due (select (is_due now) db.files))
        (order-All (select (is_due now) db.files) (select-All (is_due now) db.files h))

is_file-other :
    (id : ℕ) (tenant : Option Text) (x f : FileObject)
    → (x.id == f.id) ≡ false
    → is_file id tenant f ≡ true
    → is_file id tenant x ≡ false
unfolding is_file
is_file-other id none x f apart h = ground arith
is_file-other id (some t) x f apart h = ground arith

find-write-other :
    (id : ℕ) (tenant : Option Text) (f g : FileObject) (fs : List FileObject)
    → (g.id == f.id) ≡ false
    → find (is_file id tenant) fs ≡ some f
    → find (is_file id tenant) (write_file g fs) ≡ some f
unfolding write_file
find-write-other id tenant f g [] other h = cc
find-write-other id tenant f g (k ∷ ks) other h = elim (Bool-cases (k.id == g.id)) [
  | inl e ↦
      let passed : find (is_file id tenant) ks ≡ some f = ground (arith, not_it k (ground arith)) in
      rw e (rw (not_it g other) passed)
  | inr e ↦ elim (Bool-cases (is_file id tenant k)) [
    | inl f_k ↦ rw e (rw f_k (ground arith))
    | inr f_k ↦ rw e (rw f_k (find-write-other id tenant f g ks other (ground arith)))
  ]
]
  where
    not_it : (x : FileObject) → (x.id == f.id) ≡ false → is_file id tenant x ≡ false
    not_it x apart =
        is_file-other id tenant x f apart (find-test (is_file id tenant) (k ∷ ks) {x = f} h)

-- no two files have one key
abbrev pub AreDistinctFiles : List FileObject → Type 0
AreDistinctFiles [] = Unit
AreDistinctFiles (f ∷ fs) = (any (λ g. g.id == f.id) fs ≡ false) × AreDistinctFiles fs

pub find-any :
    (t p : FileObject → Bool) (fs : List FileObject) (f : FileObject)
    → find t fs ≡ some f
    → p f ≡ true
    → any p fs ≡ true
find-any t p [] f h e = cc
find-any t p (g ∷ gs) f h e = elim (Bool-cases (t g)) [
  | inl hit ↦
      let same : g ≡ f = ground arith in let here : p g ≡ true = ap p same ∙ e in rw here refl
  | inr miss ↦ let later = find-any t p gs f (ground arith) e in ground arith
]

no-id :
    (f : FileObject) (fs : List FileObject)
    → any (λ g. g.id == f.id) fs ≡ false
    → All (IsApart f) fs
no-id f [] h = tt
no-id f (g ∷ gs) h = (λ _. ground arith, no-id f gs (ground arith))

All-IsApart :
    (t : FileObject → Bool) (fs : List FileObject) (f : FileObject)
    → AreDistinctFiles fs
    → find t fs ≡ some f
    → f.legal_hold ≡ true
    → All (IsApart f) fs
All-IsApart t [] f d h held = tt
All-IsApart t (k ∷ ks) f d h held = elim (Bool-cases (t k)) [
  | inl hit ↦
      let same : k ≡ f = ground arith in
      (
        λ free. absurd (cc (free, held, ap (λ (x : FileObject). x.legal_hold) same)),
        subst (λ (x : FileObject). All (IsApart x) ks) same (no-id k ks d.0),
      )
  | inr miss ↦
      let found : find t ks ≡ some f = ground arith in
      (λ _. apart found, All-IsApart t ks f d.1 found held)
]
  where
    apart : find t ks ≡ some f → (k.id == f.id) ≡ false
    apart found = elim (Bool-cases (k.id == f.id)) [
      | inr e ↦ e
      | inl e ↦ absurd (cc (d.0, find-any t (λ g. g.id == k.id) ks f found (ground arith)))
    ]

module _ {S : Type 0} (app : App S) where
  act-id : (f : FileObject) (w : World S) → (act app f w).0.0.id ≡ f.id
  unfolding act
  act-id f w = ground arith

  process_file-held :
      (id : ℕ) (tenant : Option Text) (f g : FileObject) (w : World S)
      → IsApart f g
      → get_file w.db id tenant ≡ some f
      → get_file (process_file app g w).1.db id tenant ≡ some f
  unfolding process_file reported enqueue save_file get_file
  process_file-held id tenant f g w apart h = elim (Bool-cases g.legal_hold) [
    | inl e ↦ simp e h
    | inr e ↦
        let kept =
          find-write-other id tenant f (act app g w).0.0 w.db.files (rw (act-id g w) (apart e)) h in
        simp e (elim (Bool-cases (act app g w).0.1) [ inl d ↦ simp d kept | inr d ↦ simp d kept ])
  ]

  process_each-held :
      (id : ℕ) (tenant : Option Text) (f : FileObject) (gs : List FileObject) (w : World S)
      → All (IsApart f) gs
      → get_file w.db id tenant ≡ some f
      → get_file (process_each app gs w).1.db id tenant ≡ some f
  unfolding process_each
  process_each-held id tenant f [] w apart h = h
  process_each-held id tenant f (g ∷ gs) w apart h =
      process_each-held id tenant f gs (process_file app g w).1 apart.1
        (process_file-held id tenant f g w apart.0 h)

  -- A file under a legal hold, in a table whose keys are distinct, has the same row after a pass of
  -- the worker, whatever the batch and the other files, and whether the backend fails or not.
  pub process_batch-held :
      (batch_size id : ℕ) (tenant : Option Text) (f : FileObject) (w : World S)
      → AreDistinctFiles w.db.files
      → get_file w.db id tenant ≡ some f
      → f.legal_hold ≡ true
      → get_file (process_batch app batch_size w).1.db id tenant ≡ some f
  unfolding process_batch get_file
  process_batch-held batch_size id tenant f w distinct found held =
      process_each-held id tenant f (due_files w.now batch_size w.db) w
        (due_files-All (IsApart f) w.now batch_size w.db
          (All-IsApart (is_file id tenant) w.db.files f distinct found held))
        found
