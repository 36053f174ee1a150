-- ===== src/Webhooks/Attempts.antt =====
-- `deliver_due` of app/services/webhook_service.py: each message is tried a bounded number of times.
use pyupload_x.Base.{
  ℕ, zero, suc, ◌+◌, ◌≤◌, ◌<◌, ◌≡◌, refl, ◌⊎◌, inl, inr, Bool, true, Option, List, [], ◌∷◌, arith,
  leb, Bool-cases, All, Text,
}
use pyupload_x.Lifecycle.Mode.{Time, seconds}
use pyupload_x.Db.{Db}
use pyupload_x.Db.Rows.{OutboxMessage}
use pyupload_x.Webhooks.Delivery.{
  is_pending, is_deliverable, backoff, attempt, deliver_each, is_blank, deliver_due,
}

-- A message that waits has attempts left; one that failed has used them all.
abbrev pub IsBounded : ℕ → OutboxMessage → Type 0
IsBounded max_attempts m =
    (m.attempts ≤ max_attempts) × (is_pending m.status ≡ true → m.attempts < max_attempts)

-- A row after a delivery: as it was, or tried once more.
abbrev pub Tried : ℕ → Time → List OutboxMessage → List OutboxMessage → Type 0
Tried max_attempts now [] [] = Unit
Tried max_attempts now [] (n ∷ ns) = ⊥
Tried max_attempts now (m ∷ ms) [] = ⊥
Tried max_attempts now (m ∷ ms) (n ∷ ns) =
    ((n ≡ m)
      ⊎ ((is_deliverable now m ≡ true)
          × (n.id ≡ m.id)
          × (n.attempts ≡ m.attempts + 1)
          × (is_pending n.status ≡ true
              → (n.next_attempt_at ≡ now + seconds (backoff n.attempts))
                × (n.attempts < max_attempts))))
    × Tried max_attempts now ms ns

module _ (post : OutboxMessage → Bool) (max_attempts : ℕ) (now : Time) where
  attempt-tried :
      (m : OutboxMessage)
      → is_deliverable now m ≡ true
      → ((attempt post max_attempts now m).id ≡ m.id)
        × ((attempt post max_attempts now m).attempts ≡ m.attempts + 1)
        × (is_pending (attempt post max_attempts now m).status ≡ true
            → ((attempt post max_attempts now m).next_attempt_at
                ≡ now + seconds (backoff (attempt post max_attempts now m).attempts))
              × ((attempt post max_attempts now m).attempts < max_attempts))
  unfolding attempt
  attempt-tried m h = elim (Bool-cases (post m)) [
    | inl e ↦ simp e (refl, refl, λ p. absurd (ground arith))
    | inr e ↦ elim (Bool-cases (leb max_attempts (m.attempts + 1))) [
      | inl d ↦ simp (e, d) (refl, refl, λ p. absurd (ground arith))
      | inr d ↦ simp (e, d) (refl, refl, λ p. (refl, ground arith))
    ]
  ]

  same-Tried : (ms : List OutboxMessage) → Tried max_attempts now ms ms
  same-Tried [] = tt
  same-Tried (m ∷ ms) = (inl refl, same-Tried ms)

  deliver_each-Tried :
      (budget : ℕ) (ms : List OutboxMessage)
      → Tried max_attempts now ms (deliver_each post max_attempts now budget ms).1
  unfolding deliver_each
  deliver_each-Tried budget [] = tt
  deliver_each-Tried zero (m ∷ ms) = same-Tried (m ∷ ms)
  deliver_each-Tried (suc budget) (m ∷ ms) = elim (Bool-cases (is_deliverable now m)) [
    | inl e ↦
        let (same, more, last) = attempt-tried m e in
        simp e (inr (refl, same, more, last), deliver_each-Tried budget ms)
    | inr e ↦ simp e (inl refl, deliver_each-Tried (suc budget) ms)
  ]

  deliver_each-le :
      (budget : ℕ) (ms : List OutboxMessage)
      → (deliver_each post max_attempts now budget ms).0 ≤ budget
  unfolding deliver_each
  deliver_each-le budget [] = omega arith
  deliver_each-le zero (m ∷ ms) = omega arith
  deliver_each-le (suc budget) (m ∷ ms) =
      ground (arith, deliver_each-le budget ms, deliver_each-le (suc budget) ms)

  attempt-IsBounded :
      (m : OutboxMessage)
      → is_deliverable now m ≡ true
      → IsBounded max_attempts m
      → IsBounded max_attempts (attempt post max_attempts now m)
  unfolding is_deliverable
  attempt-IsBounded m e k =
      let waits : is_pending m.status ≡ true = ground arith in
      let (_, more, last) = attempt-tried m e in (omega (arith, k.1 waits), λ p. (last p).1)

  deliver_each-IsBounded :
      (budget : ℕ) (ms : List OutboxMessage)
      → All (IsBounded max_attempts) ms
      → All (IsBounded max_attempts) (deliver_each post max_attempts now budget ms).1
  unfolding deliver_each
  deliver_each-IsBounded budget [] h = tt
  deliver_each-IsBounded zero (m ∷ ms) h = h
  deliver_each-IsBounded (suc budget) (m ∷ ms) h = elim (Bool-cases (is_deliverable now m)) [
    | inl e ↦ simp e (attempt-IsBounded m e h.0, deliver_each-IsBounded budget ms h.1)
    | inr e ↦ simp e (h.0, deliver_each-IsBounded (suc budget) ms h.1)
  ]

  -- A delivery counts at most a batch of messages, and leaves each message as it was or tried once:
  -- then it was deliverable, and if it still waits, its next attempt is the backoff away and it has
  -- attempts left. If every message that waited had attempts left, and none had more than the most,
  -- the same holds afterwards: no message is tried more often than that.
  pub deliver_due-Tried :
      (webhook_url : Option Text) (batch_size : ℕ) (db : Db)
      → All (IsBounded max_attempts) db.outbox
      → ((deliver_due post webhook_url batch_size max_attempts now db).0 ≤ batch_size)
        × Tried max_attempts now db.outbox
            (deliver_due post webhook_url batch_size max_attempts now db).1.outbox
        × All
            (IsBounded max_attempts)
            (deliver_due post webhook_url batch_size max_attempts now db).1.outbox
  unfolding deliver_due
  deliver_due-Tried webhook_url batch_size db h = elim (Bool-cases (is_blank webhook_url)) [
    | inl e ↦ rw e (omega arith, same-Tried db.outbox, h)
    | inr e ↦ rw e (
      deliver_each-le batch_size db.outbox,
      deliver_each-Tried batch_size db.outbox,
      deliver_each-IsBounded batch_size db.outbox h,
    )
  ]
