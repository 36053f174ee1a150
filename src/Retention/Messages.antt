-- ===== src/Retention/Messages.antt =====
-- app/worker/lifecycle.py: the messages of a pass, as its files are to have them.
use pyupload_x.Base.{◌≤◌, ◌≡◌, false, List, [], ◌∷◌, arith, length, ◌++◌, codes, Text, true, ◌⊎◌}
use pyupload_x.Lifecycle.Mode.{Time, LifecycleAction}
use pyupload_x.Errors.{Error, ok, err}
use pyupload_x.Request.{App}
use pyupload_x.Db.Rows.{FileObject, OutboxMessage, WebhookStatus}

-- what a message says of an action
abbrev pub event_of : LifecycleAction → Text
event_of LifecycleAction.delete = codes "lifecycle.LifecycleAction.delete"
event_of LifecycleAction.notify = codes "lifecycle.LifecycleAction.notify"
event_of LifecycleAction.none_action = codes "lifecycle.LifecycleAction.none"
event_of (LifecycleAction.other s) = codes "lifecycle." ++ s

module _ {S : Type 0} (app : App S) where
  -- The file was to be deleted, and the backend failed, or did it, in some state.
  abbrev pub IsFailed : FileObject → Type 0
  IsFailed f =
      (f.lifecycle_action ≡ LifecycleAction.delete)
      × ((s : S) × (e : Error) × ((app.storage.delete_object f.bucket f.object_key s).0 ≡ err e))

  abbrev pub IsDeleted : FileObject → Type 0
  IsDeleted f = (s : S) × ((app.storage.delete_object f.bucket f.object_key s).0 ≡ ok tt)

  -- A message for a file, which is to be delivered from now on.
  pub record IsReport (now : Time) (f : FileObject) (m : OutboxMessage) : Type 0 where
    pub file : m.file_id ≡ f.id
    pub owner : m.tenant_id ≡ f.tenant_id
    pub event : m.event_type ≡ event_of f.lifecycle_action
    pub fresh : (m.status ≡ WebhookStatus.pending) × (m.attempts ≡ 0) × (m.next_attempt_at ≡ now)
    pub free : f.legal_hold ≡ false
    pub deleted : f.lifecycle_action ≡ LifecycleAction.delete → IsDeleted f

  -- The messages for some files, in their order: one for each file but those that are held, and
  -- those whose deletion failed.
  pub data Reports (now : Time) : List FileObject → List OutboxMessage → Type 0 where
    over : Reports now [] []
    silent :
        {f : FileObject} {fs : List FileObject} {ms : List OutboxMessage}
        → (f.legal_hold ≡ true) ⊎ IsFailed f
        → Reports now fs ms
        → Reports now (f ∷ fs) ms
    spoken :
        {f : FileObject} {m : OutboxMessage} {fs : List FileObject} {ms : List OutboxMessage}
        → IsReport now f m
        → Reports now fs ms
        → Reports now (f ∷ fs) (m ∷ ms)

  pub Reports-le :
      (now : Time) {fs : List FileObject} {ms : List OutboxMessage}
      → Reports now fs ms
      → length ms ≤ length fs
  Reports-le now over = omega arith
  Reports-le now (silent h r) = omega (arith, Reports-le now r)
  Reports-le now (spoken h r) = omega (arith, Reports-le now r)

  pub Reports-append :
      (now : Time) {fs gs : List FileObject} {ms ns : List OutboxMessage}
      → Reports now fs ms
      → Reports now gs ns
      → Reports now (fs ++ gs) (ms ++ ns)
  Reports-append now over k = k
  Reports-append now (silent h r) k = silent h (Reports-append now r k)
  Reports-append now (spoken h r) k = spoken h (Reports-append now r k)
