-- ===== src/Retention/Passes.antt =====
-- app/worker/lifecycle.py: what a pass does to the files.
use pyupload_x.Base.{ℕ, ◌≡◌, false, List, arith, length, ◌++◌}
use pyupload_x.Lifecycle.Mode.{Time}
use pyupload_x.Lifecycle.StateMachine.{lifecycle_eq}
use pyupload_x.Db.Rows.{FileObject, is_deleted, OutboxMessage, WebhookStatus}
use pyupload_x.Request.{World, App}
use pyupload_x.Retention.Messages.{event_of, Reports}
use pyupload_x.Retention.Worker.{is_due, act}

module _ {S : Type 0} (app : App S) where
  act-id : (f : FileObject) (w : World S) → (act app f w).0.0.id ≡ f.id
  unfolding act
  act-id f w = ground arith

  -- A file that the worker acts on, whether the action succeeds or fails, is not due again at any
  -- time: each file is acted on at most once, also one whose deletion failed.
  pub act-not_due :
      (f : FileObject) (w : World S) (later : Time) → is_due later (act app f w).0.0 ≡ false
  unfolding act is_due is_deleted lifecycle_eq
  act-not_due f w later = ground arith

module _ {S : Type 0} (app : App S) where
  message_of : FileObject → World S → OutboxMessage
  message_of f w = record {
    id = w.db.next_id;
    tenant_id = f.tenant_id;
    event_type = event_of f.lifecycle_action;
    file_id = f.id;
    status = WebhookStatus.pending;
    attempts = 0;
    next_attempt_at = w.now;
  }

  -- The pass so far wrote the messages, and counted them.
  record Wrote (fs : List FileObject) (w : World S) (n : ℕ) (w' : World S) : Type 0 where
    messages : List OutboxMessage
    reports : Reports app w.now fs messages
    outbox : w'.db.outbox ≡ w.db.outbox ++ messages
    count : n ≡ length messages
    now : w'.now ≡ w.now
