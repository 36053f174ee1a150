-- ===== src/Uploads/Sweep.antt =====
-- app/services/cleanup_service.py: which sessions a pass of the worker expires.
use pyupload_x.Base.{
  ℕ, zero, suc, ◌≤◌, ◌≡◌, refl, ◌⊎◌, inl, inr, Bool, true, false, List, [], ◌∷◌, map, arith, ◌==◌,
  Bool-cases, length, take, select, any, All, length-take, take-all, contains, length-map,
}
use pyupload_x.Errors.{ok}
use pyupload_x.Lifecycle.Mode.{Time}
use pyupload_x.Lifecycle.StateMachine.{UploadStatus}
use pyupload_x.Db.Rows.{UploadSession}
use pyupload_x.Request.{World}
use pyupload_x.Uploads.Finish.{is_overdue, expire_row, overdue_ids, expire_upload_sessions}
use pyupload_x.Uploads.Sound.{IsSound, AreDistinct}

contains-take : (n k : ℕ) (ns : List ℕ) → contains n (take k ns) ≡ true → contains n ns ≡ true
contains-take n zero ns h = cc
contains-take n (suc k) [] h = h
contains-take n (suc k) (m ∷ ns) h = ground (arith, contains-take n k ns)

module _ (t : UploadSession → Bool) where
  abbrev ids_of : List UploadSession → List ℕ
  ids_of us = map (λ u. u.id) (select t us)

  any-ids :
      (n : ℕ) (us : List UploadSession)
      → contains n (ids_of us) ≡ true
      → any (λ v. v.id == n) us ≡ true
  any-ids n [] h = h
  any-ids n (u ∷ us) h = elim (Bool-cases (t u)) [
    | inl e ↦ ground (arith, any-ids n us)
    | inr e ↦ ground (arith, any-ids n us (ground arith))
  ]

  -- only a row that passes the test has one of the keys
  abbrev Passes : List UploadSession → List UploadSession → Type 0
  Passes all_rows us = All (λ u. contains u.id (ids_of all_rows) ≡ true → t u ≡ true) us

  unlisted :
      (v : UploadSession) (vs us : List UploadSession)
      → any (λ w. w.id == v.id) us ≡ false
      → t v ≡ true
      → Passes vs us
      → Passes (v ∷ vs) us
  unlisted v vs [] h e k = tt
  unlisted v vs (u ∷ us) h e k =
      (rw e (λ c. k.0 (ground arith)), unlisted v vs us (ground arith) e k.1)

  unlisted_false :
      (v : UploadSession) (vs us : List UploadSession)
      → t v ≡ false
      → Passes vs us
      → Passes (v ∷ vs) us
  unlisted_false v vs us e k = rw e k

  ids-Passes : (us : List UploadSession) → AreDistinct us → Passes us us
  ids-Passes [] h = tt
  ids-Passes (v ∷ vs) h = elim (Bool-cases (t v)) [
    | inl e ↦ (λ _. e, unlisted v vs vs h.0 e (ids-Passes vs h.1))
    | inr e ↦ (rw e (λ c. absurd (clash c)), unlisted_false v vs vs e (ids-Passes vs h.1))
  ]
    where
      clash : contains v.id (ids_of vs) ≡ true → ⊥
      clash c = cc (h.0, any-ids v.id vs c)

  -- every row that passes the test has one of the keys
  ids_complete :
      (us : List UploadSession) → All (λ u. t u ≡ true → contains u.id (ids_of us) ≡ true) us
  ids_complete us = later us (λ n h. h)
    where
      later :
          (vs : List UploadSession)
          → ((n : ℕ) → contains n (ids_of vs) ≡ true → contains n (ids_of us) ≡ true)
          → All (λ u. t u ≡ true → contains u.id (ids_of us) ≡ true) vs
      later [] k = tt
      later (v ∷ vs) k = (
        λ e. k v.id (rw e (ground arith)),
        later vs
            (λ n h. k n (elim (Bool-cases (t v)) [ inl e ↦ rw e (ground arith) | inr e ↦ rw e h ])),
      )

-- The rows before and after a pass: each is the same, or was overdue and is expired now.
abbrev pub Swept : Time → List UploadSession → List UploadSession → Type 0
Swept now [] [] = Unit
Swept now [] (v ∷ vs) = ⊥
Swept now (u ∷ us) [] = ⊥
Swept now (u ∷ us) (v ∷ vs) =
    ((v ≡ u)
      ⊎ ((is_overdue now u ≡ true)
          × (v ≡ record u {
            status = UploadStatus.expired;
            last_activity_at = now;
            updated_at = now;
          })))
    × Swept now us vs

map-Swept :
    (now : Time) (ids : List ℕ) (us : List UploadSession)
    → All (λ u. contains u.id ids ≡ true → is_overdue now u ≡ true) us
    → Swept now us (map (expire_row now ids) us)
map-Swept now ids [] h = tt
map-Swept now ids (u ∷ us) h = elim (Bool-cases (contains u.id ids)) [
  | inl e ↦ rw e (inr (h.0 e, refl), map-Swept now ids us h.1)
  | inr e ↦ rw e (inl refl, map-Swept now ids us h.1)
]

taken :
    (now : Time) (k : ℕ) (ids : List ℕ) (us : List UploadSession)
    → All (λ u. contains u.id ids ≡ true → is_overdue now u ≡ true) us
    → All (λ u. contains u.id (take k ids) ≡ true → is_overdue now u ≡ true) us
taken now k ids [] h = tt
taken now k ids (u ∷ us) h = (λ c. h.0 (contains-take u.id k ids c), taken now k ids us h.1)

none_left :
    (now : Time) (ids : List ℕ) (us : List UploadSession)
    → All (λ u. is_overdue now u ≡ true → contains u.id ids ≡ true) us
    → select (is_overdue now) (map (expire_row now ids) us) ≡ []
unfolding is_overdue
none_left now ids [] h = refl
none_left now ids (u ∷ us) h = ground (arith, h.0, none_left now ids us h.1)

-- A pass over sound tables expires at most as many sessions as the batch allows, and leaves each row
-- that was not open and overdue as it was. If the overdue sessions fit in the batch, none is overdue
-- afterwards.
pub expire-Swept :
    {S : Type 0} (batch_size : ℕ) (w : World S)
    → IsSound w.db
    → (n : ℕ) × (w' : World S) × (expire_upload_sessions batch_size w ≡ (ok n, w'))
      × (n ≤ batch_size)
      × Swept w.now w.db.uploads w'.db.uploads
      × (length (select (is_overdue w.now) w.db.uploads) ≤ batch_size
          → select (is_overdue w.now) w'.db.uploads ≡ [])
unfolding expire_upload_sessions overdue_ids
expire-Swept batch_size w h =
    let ids = ids_of (is_overdue w.now) w.db.uploads in
    (
      length (take batch_size ids),
      (expire_upload_sessions batch_size w).1,
      refl,
      omega (arith, length-take batch_size ids),
      map-Swept w.now (take batch_size ids) w.db.uploads (
          taken w.now batch_size ids w.db.uploads
            (ids-Passes (is_overdue w.now) w.db.uploads h.distinct)),
      λ few.
          let whole : take batch_size ids ≡ ids = take-all batch_size ids (
            rw (length-map (λ (u : UploadSession). u.id) (select (is_overdue w.now) w.db.uploads))
              few) in
          rw whole
            (none_left w.now ids w.db.uploads (ids_complete (is_overdue w.now) w.db.uploads)),
    )
