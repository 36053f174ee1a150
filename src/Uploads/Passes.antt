-- ===== src/Uploads/Passes.antt =====
-- app/services/cleanup_service.py: the passes of the worker, one after another.
use pyupload_x.Base.{
  ℕ, zero, suc, ◌+◌, ◌*◌, ◌≤◌, ◌≡◌, refl, ap, ◌∙◌, ◌⊎◌, inl, inr, false, List, [], ◌∷◌, map, arith,
  ◌==◌, if◌then◌else◌, ==_refl, Bool-cases, length, select, any, All, contains,
}
use pyupload_x.Lifecycle.Mode.{Time}
use pyupload_x.Lifecycle.StateMachine.{UploadStatus}
use pyupload_x.Db.Rows.{UploadSession}
use pyupload_x.Request.{World}
use pyupload_x.Uploads.Finish.{
  is_open_status, is_overdue, expire_row, overdue_ids, expire_upload_sessions,
}
use pyupload_x.Uploads.Sound.{IsSound, AreDistinct}
use pyupload_x.Uploads.Sound.Endings.{expire_upload_sessions-IsSound}

abbrev expired : Time → UploadSession → UploadSession
expired now u = record u { status = UploadStatus.expired; last_activity_at = now; updated_at = now }

-- The first rows that are overdue are expired, up to a number of them.
sweep : Time → ℕ → List UploadSession → List UploadSession
sweep now k [] = []
sweep now zero (u ∷ us) = u ∷ us
sweep now (suc k) (u ∷ us) =
    let one = expired now u ∷ sweep now k us in
    let same = u ∷ sweep now (suc k) us in if is_overdue now u then one else same

expire-none : (now : Time) (us : List UploadSession) → map (expire_row now []) us ≡ us
expire-none now [] = refl
expire-none now (u ∷ us) = ap (λ r. u ∷ r) (expire-none now us)

expire-other :
    (now : Time) (n : ℕ) (ids : List ℕ) (us : List UploadSession)
    → any (λ v. v.id == n) us ≡ false
    → map (expire_row now (n ∷ ids)) us ≡ map (expire_row now ids) us
expire-other now n ids [] h = refl
expire-other now n ids (u ∷ us) h = ground (arith, expire-other now n ids us)

overdue_ids-new :
    (now : Time) (k n : ℕ) (us : List UploadSession)
    → any (λ v. v.id == n) us ≡ false
    → contains n (overdue_ids now k us) ≡ false
unfolding overdue_ids
overdue_ids-new now zero n us h = refl
overdue_ids-new now (suc k) n [] h = refl
overdue_ids-new now (suc k) n (u ∷ us) h =
    ground (arith, overdue_ids-new now k n us, overdue_ids-new now (suc k) n us)

overdue_ids-step :
    (now : Time) (k : ℕ) (u : UploadSession) (us : List UploadSession)
    → overdue_ids now (suc k) (u ∷ us)
      ≡ (if is_overdue now u then u.id ∷ overdue_ids now k us else overdue_ids now (suc k) us)
unfolding overdue_ids
overdue_ids-step now k u us = ground arith

map-sweep :
    (now : Time) (k : ℕ) (us : List UploadSession)
    → AreDistinct us
    → map (expire_row now (overdue_ids now k us)) us ≡ sweep now k us
unfolding sweep
map-sweep now k [] h = refl
map-sweep now zero (u ∷ us) h = unfold overdue_ids in expire-none now (u ∷ us)
map-sweep now (suc k) (u ∷ us) h =
    ap (λ ids. map (expire_row now ids) (u ∷ us)) (overdue_ids-step now k u us)
    ∙ elim (Bool-cases (is_overdue now u)) [
      | inl e ↦
          ap
            (λ b.
              map
                (expire_row now
                  (if b then u.id ∷ overdue_ids now k us else overdue_ids now (suc k) us))
                (u ∷ us))
            e
          ∙ rw (==_refl u.id, e)
              (ap (λ r. expired now u ∷ r)
                (expire-other now u.id (overdue_ids now k us) us h.0 ∙ map-sweep now k us h.1))
      | inr e ↦
          ap
            (λ b.
              map
                (expire_row now
                  (if b then u.id ∷ overdue_ids now k us else overdue_ids now (suc k) us))
                (u ∷ us))
            e
          ∙ rw (overdue_ids-new now (suc k) u.id us h.0, e)
              (ap (λ r. u ∷ r) (map-sweep now (suc k) us h.1))
    ]

abbrev count_open : List UploadSession → ℕ
count_open us = length (select (λ u. is_open_status u.status) us)

-- A pass leaves nothing overdue, or as many fewer open sessions as its batch has.
sweep-progress :
    (now : Time) (k : ℕ) (us : List UploadSession)
    → (select (is_overdue now) (sweep now k us) ≡ [])
      ⊎ (count_open (sweep now k us) + k ≡ count_open us)
unfolding sweep is_overdue
sweep-progress now k [] = inl refl
sweep-progress now zero (u ∷ us) = inr (omega arith)
sweep-progress now (suc k) (u ∷ us) = elim (Bool-cases (is_overdue now u)) [
  | inl e ↦ elim (sweep-progress now k us) [
    | inl f ↦ inl (ground arith)
    | inr f ↦ inr (ground arith)
  ]
  | inr e ↦ elim (sweep-progress now (suc k) us) [
    | inl f ↦ inl (ground arith)
    | inr f ↦ inr (ground arith)
  ]
]

select-sweep :
    (t now : Time) (k : ℕ) (us : List UploadSession)
    → select (is_overdue t) us ≡ []
    → select (is_overdue t) (sweep now k us) ≡ []
unfolding sweep is_overdue
select-sweep t now k [] h = refl
select-sweep t now zero (u ∷ us) h = h
select-sweep t now (suc k) (u ∷ us) h =
    ground (arith, select-sweep t now k us, select-sweep t now (suc k) us)

earlier :
    (t now : Time) (us : List UploadSession)
    → t ≤ now
    → select (is_overdue now) us ≡ []
    → select (is_overdue t) us ≡ []
unfolding is_overdue
earlier t now [] h k = refl
earlier t now (u ∷ us) h k = ground (arith, earlier t now us)

none_open : (t : Time) (us : List UploadSession) → count_open us ≤ 0 → select (is_overdue t) us ≡ []
unfolding is_overdue
none_open t [] h = refl
none_open t (u ∷ us) h = ground (arith, none_open t us)

abbrev sweeps : ℕ → List Time → List UploadSession → List UploadSession
sweeps k [] us = us
sweeps k (t ∷ ts) us = sweeps k ts (sweep t k us)

stays_none :
    (t : Time) (k : ℕ) (ts : List Time) (us : List UploadSession)
    → select (is_overdue t) us ≡ []
    → select (is_overdue t) (sweeps k ts us) ≡ []
stays_none t k [] us h = h
stays_none t k (now ∷ ts) us h = stays_none t k ts (sweep now k us) (select-sweep t now k us h)

sweeps-none :
    (t : Time) (k : ℕ) (ts : List Time) (us : List UploadSession)
    → All (λ now. t ≤ now) ts
    → count_open us ≤ length ts * k
    → select (is_overdue t) (sweeps k ts us) ≡ []
sweeps-none t k [] us h few = none_open t us (omega arith)
sweeps-none t k (now ∷ ts) us h few = elim (sweep-progress now k us) [
  | inl e ↦ stays_none t k ts (sweep now k us) (earlier t now (sweep now k us) h.0 e)
  | inr e ↦ sweeps-none t k ts (sweep now k us) h.1 (omega (arith, e))
]

module _ {S : Type 0} where
  -- Passes at the given times.
  abbrev pub passes : ℕ → List Time → World S → World S
  passes batch_size [] w = w
  passes batch_size (t ∷ ts) w =
      passes batch_size ts (expire_upload_sessions batch_size (record w { now = t })).1

  passes-sweeps :
      (batch_size : ℕ) (ts : List Time) (w : World S)
      → IsSound w.db
      → (passes batch_size ts w).db.uploads ≡ sweeps batch_size ts w.db.uploads
  unfolding expire_upload_sessions
  passes-sweeps batch_size [] w h = refl
  passes-sweeps batch_size (t ∷ ts) w h =
      passes-sweeps batch_size ts (expire_upload_sessions batch_size (record w { now = t })).1
        (expire_upload_sessions-IsSound batch_size (record w { now = t }) h)
      ∙ ap (sweeps batch_size ts) (map-sweep t batch_size w.db.uploads h.distinct)

  -- Of sound tables, whatever is overdue at a time is no longer so after enough passes, at any times
  -- from then on: their batches together are as large as the number of open sessions.
  pub passes-finish :
      (batch_size : ℕ) (ts : List Time) (t : Time) (w : World S)
      → IsSound w.db
      → All (λ now. t ≤ now) ts
      → length (select (λ u. is_open_status u.status) w.db.uploads) ≤ length ts * batch_size
      → select (is_overdue t) (passes batch_size ts w).db.uploads ≡ []
  passes-finish batch_size ts t w h later enough =
      rw (passes-sweeps batch_size ts w h) (sweeps-none t batch_size ts w.db.uploads later enough)
