-- ===== src/Webhooks/Delivery.antt =====
-- `deliver_due` of app/services/webhook_service.py. The HTTP client is the parameter `post`: it tells
-- whether the endpoint answered below 300, where an exception counts as not. The state of the
-- endpoint and the text of the last error are left out.
use pyupload_x.Base.{
  ℕ, zero, suc, ◌+◌, ◌^◌, min, Bool, true, false, ◌&&◌, Option, none, some, List, [], ◌∷◌, leb,
  if◌then◌else◌, Text,
}
use pyupload_x.Lifecycle.Mode.{Time, seconds}
use pyupload_x.Db.{Db}
use pyupload_x.Db.Rows.{OutboxMessage, WebhookStatus}

abbrev pub is_pending : WebhookStatus → Bool
is_pending WebhookStatus.pending = true
is_pending _ = false

-- the `where` of the delivery; the rows are in the order of their creation
unfoldable pub is_deliverable : Time → OutboxMessage → Bool
is_deliverable now m = is_pending m.status && leb m.next_attempt_at now

-- `min(2 ** attempts, 3600)` seconds
unfoldable pub backoff : ℕ → ℕ
backoff attempts = min (2 ^ attempts) 3600

module _ (post : OutboxMessage → Bool) (max_attempts : ℕ) (now : Time) where
  -- The body of the loop: the row after one attempt.
  unfoldable pub attempt : OutboxMessage → OutboxMessage
  unfolding backoff
  attempt m =
      let tried : OutboxMessage = record m { attempts = m.attempts + 1 } in
      if post m
      then record tried { status = WebhookStatus.delivered }
      else if leb max_attempts (m.attempts + 1)
      then record tried { status = WebhookStatus.failed }
      else record tried { next_attempt_at = now + seconds (backoff (m.attempts + 1)) }

  -- The table after the loop over the first `budget` deliverable rows, and the number delivered.
  unfoldable pub deliver_each : ℕ → List OutboxMessage → ℕ × List OutboxMessage
  unfolding attempt is_deliverable
  deliver_each budget [] = (0, [])
  deliver_each zero (m ∷ ms) = (0, m ∷ ms)
  deliver_each (suc budget) (m ∷ ms) =
      let here = deliver_each budget ms in
      let skipped = deliver_each (suc budget) ms in
      if is_deliverable now m
      then ((if post m then 1 else 0) + here.0, attempt m ∷ here.1)
      else (skipped.0, m ∷ skipped.1)

abbrev pub is_blank : Option Text → Bool
is_blank none = true
is_blank (some []) = true
is_blank (some (c ∷ s)) = false

unfoldable pub deliver_due :
    (post : OutboxMessage → Bool) (webhook_url : Option Text) (batch_size max_attempts : ℕ)
    (now : Time) (db : Db)
    → ℕ × Db
unfolding deliver_each
deliver_due post webhook_url batch_size max_attempts now db =
    if is_blank webhook_url
    then (0, db)
    else (let (n, outbox) = deliver_each post max_attempts now batch_size db.outbox in
        (n, record db { outbox = outbox }))
