-- ===== src/Retention/Worker.antt =====
-- app/worker/lifecycle.py: one pass over the files whose action is due; app/services/webhook_service.py:
-- `enqueue`. The counters and the log are left out. The payload of a message is its file.
use pyupload_x.Base.{
  ℕ, ◌+◌, Bool, true, false, not, ◌&&◌, none, some, List, [], ◌∷◌, ◌++◌, leb, if◌then◌else◌, take,
  select, Text, codes,
}
use pyupload_x.Errors.{ok, err}
use pyupload_x.Lifecycle.Mode.{Time, LifecycleAction}
use pyupload_x.Lifecycle.StateMachine.{LifecycleStatus, lifecycle_eq}
use pyupload_x.Db.{Db}
use pyupload_x.Db.Rows.{FileObject, FileStatus, WebhookStatus, is_deleted}
use pyupload_x.Db.Files.{save_file}
use pyupload_x.Request.{World, App}
use pyupload_x.Retention.Service.{noted}

-- the `where` of the pass
unfoldable pub is_due : Time → FileObject → Bool
unfolding is_deleted lifecycle_eq
is_due now f =
    not (is_deleted f.status)
    && elim f.next_action_at [ none ↦ false | some t ↦ leb t now ]
    && lifecycle_eq f.lifecycle_status LifecycleStatus.active

abbrev pub due_time : FileObject → ℕ
due_time f = elim f.next_action_at [ none ↦ 0 | some t ↦ t ]

-- `order_by(FileObject.next_action_at)`
unfoldable pub insert_by_due : FileObject → List FileObject → List FileObject
insert_by_due f [] = f ∷ []
insert_by_due f (g ∷ gs) =
    if leb (due_time f) (due_time g) then f ∷ g ∷ gs else g ∷ insert_by_due f gs

unfoldable pub order_by_due : List FileObject → List FileObject
unfolding insert_by_due
order_by_due [] = []
order_by_due (f ∷ fs) = insert_by_due f (order_by_due fs)

unfoldable pub due_files : Time → ℕ → Db → List FileObject
unfolding is_due order_by_due
due_files now batch_size db = take batch_size (order_by_due (select (is_due now) db.files))

-- the text of a member of a string enumeration in an f-string, which names its class
unfoldable pub action_text : LifecycleAction → Text
action_text LifecycleAction.delete = codes "LifecycleAction.delete"
action_text LifecycleAction.notify = codes "LifecycleAction.notify"
action_text LifecycleAction.none_action = codes "LifecycleAction.none"
action_text (LifecycleAction.other s) = s

unfoldable pub enqueue : Text → Text → ℕ → Time → Db → Db
enqueue tenant_id event_type file_id now db = record db {
  outbox =
      db.outbox
      ++ record {
        id = db.next_id;
        tenant_id = tenant_id;
        event_type = event_type;
        file_id = file_id;
        status = WebhookStatus.pending;
        attempts = 0;
        next_attempt_at = now;
      }
        ∷ [];
  next_id = db.next_id + 1;
}

module _ {S : Type 0} (app : App S) where
  -- The row that an action leaves, with the backend's result, and whether it succeeded.
  unfoldable pub act : FileObject → World S → (FileObject × Bool) × S
  act f w = elim f.lifecycle_action [
    | LifecycleAction.delete ↦
        let (r, s) = app.storage.delete_object f.bucket f.object_key w.store in
        elim r [
          | ok _ ↦ (
            (
              record f {
                status = FileStatus.deleted;
                lifecycle_status = LifecycleStatus.deleted;
                deleted_at = some w.now;
              },
              true,
            ),
            s,
          )
          | err _ ↦ (
            (
              record f {
                lifecycle_status = LifecycleStatus.deleting;
                delete_attempts = f.delete_attempts + 1;
              },
              false,
            ),
            s,
          )
        ]
    | LifecycleAction.notify ↦
        ((record f { lifecycle_status = LifecycleStatus.expired }, true), w.store)
    | LifecycleAction.none_action ↦ ((record f { next_action_at = none }, true), w.store)
    | LifecycleAction.other _ ↦ ((record f { next_action_at = none }, true), w.store)
  ]

  -- the event and the message of an action
  unfoldable pub reported : FileObject → FileObject → Time → Db → Db
  unfolding enqueue action_text save_file
  reported f g now db =
      let event_type = codes "lifecycle." ++ action_text f.lifecycle_action in
      let saved = save_file g db in
      enqueue f.tenant_id event_type f.id now (record saved {
        events =
            saved.events
            ++ record {
              tenant_id = f.tenant_id;
              file_id = f.id;
              event_type = event_type;
              from_status = f.lifecycle_status;
              to_status = g.lifecycle_status;
              reason = none;
            }
              ∷ [];
      })

  -- The body of the loop: the file's share of the count, and the state.
  unfoldable pub process_file : FileObject → World S → ℕ × World S
  unfolding act reported save_file
  process_file f w =
      if f.legal_hold
      then (
        0,
        record w { db = noted (codes "lifecycle.blocked") f (some (codes "legal_hold")) w.db },
      )
      else (let ((g, done), s) = act f w in
          if done
          then (1, record w { db = reported f g w.now w.db; store = s })
          else (0, record w { db = save_file g w.db; store = s }))

  unfoldable pub process_each : List FileObject → World S → ℕ × World S
  unfolding process_file
  process_each [] w = (0, w)
  process_each (f ∷ fs) w =
      let (n, w') = process_file f w in let (m, w'') = process_each fs w' in (n + m, w'')

  unfoldable pub process_batch : ℕ → World S → ℕ × World S
  unfolding process_each due_files
  process_batch batch_size w = process_each (due_files w.now batch_size w.db) w
