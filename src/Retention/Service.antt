-- ===== src/Retention/Service.antt =====
-- app/services/lifecycle_service.py. The time arithmetic does not overflow. The `details` of an event
-- are left out. A method returns the row that the source makes its dictionary from.
use pyupload_x.Base.{
  ℕ, Bool, not, ◌||◌, Option, none, some, [], ◌∷◌, ◌++◌, if◌then◌else◌, Text, codes,
}
use pyupload_x.Base.Int.{ℤ, pos, ltb_ℤ}
use pyupload_x.Errors.{Result, file_not_found, file_under_legal_hold, invalid_lifecycle_policy}
use pyupload_x.Config.{Settings}
use pyupload_x.Lifecycle.Mode.{Time, Mode, LifecycleAction, mode_eq, action_eq}
use pyupload_x.Lifecycle.Policy.{at, Requested, Effective, compute_effective_lifecycle, or_value}
use pyupload_x.Db.{Db}
use pyupload_x.Db.Rows.{FileObject}
use pyupload_x.Db.Files.{get_file, save_file}
use pyupload_x.Request.{
  Identity, App, Action, pure, lift, gets, or_raise, raise_when, modify_db, ◌>>=◌, ◌>>◌,
}
use pyupload_x.Uploads.Create.{add_seconds}

-- `_effective`, whose defaults are the configured ones
unfoldable pub effective_of : Settings → Requested → Time → Time → Result Effective
effective_of settings requested completed_at now =
    compute_effective_lifecycle settings.lifecycle.policy settings.lifecycle.default_policy
      (some requested) (some completed_at) now

-- `_apply`
unfoldable pub apply : FileObject → Effective → FileObject
apply f e = record f {
  lifecycle_mode = e.mode;
  lifecycle_action = e.action;
  ttl_seconds = e.ttl_seconds;
  expires_at = e.expires_at;
  next_action_at = if action_eq e.action LifecycleAction.none_action then none else e.expires_at;
}

-- `session.add(LifecycleEvent(…))` for a method that leaves the status
abbrev pub noted : Text → FileObject → Option Text → Db → Db
noted event_type f reason db = record db {
  events =
      db.events
      ++ record {
        tenant_id = f.tenant_id;
        file_id = f.id;
        event_type = event_type;
        from_status = f.lifecycle_status;
        to_status = f.lifecycle_status;
        reason = reason;
      }
        ∷ [];
}

abbrev pub is_positive : ℤ → Bool
is_positive z = ltb_ℤ (pos 0) z

module _ {S : Type 0} (app : App S) (identity : Identity) where
  unfoldable pub find_file : ℕ → Action S FileObject
  find_file id w = or_raise (get_file w.db id (some identity.tenant_id)) file_not_found w

  unfoldable pub get_lifecycle : ℕ → Action S FileObject
  unfolding find_file
  get_lifecycle id = find_file id

  unfoldable pub update_lifecycle : ℕ → Requested → Action S FileObject
  unfolding find_file effective_of apply save_file
  update_lifecycle id requested = do
    f ← find_file id
    raise_when f.legal_hold file_under_legal_hold
    w ← gets (λ w. w)
    e ← lift (effective_of app.settings requested f.completed_at w.now)
    let g : FileObject = record (apply f e) { lifecycle_source = codes "client" }
    modify_db (λ db. noted (codes "lifecycle.updated") g none (save_file g db))
    pure g

  unfoldable pub extend : ℕ → ℤ → Action S FileObject
  unfolding find_file effective_of apply save_file
  extend id extend_seconds = do
    f ← find_file id
    raise_when (mode_eq f.lifecycle_mode Mode.permanent || mode_eq f.lifecycle_mode Mode.expires_at)
        invalid_lifecycle_policy
    raise_when (not (is_positive extend_seconds)) invalid_lifecycle_policy
    w ← gets (λ w. w)
    let requested : Requested = record {
      mode = some f.lifecycle_mode;
      action = some f.lifecycle_action;
      ttl_seconds = f.ttl_seconds;
      expires_at = some (at (add_seconds (or_value f.expires_at w.now) extend_seconds));
    }
    e ← lift (effective_of app.settings requested f.completed_at w.now)
    let g = apply f e
    modify_db (λ db. noted (codes "lifecycle.extended") g none (save_file g db))
    pure g

  unfoldable pub make_permanent : ℕ → Action S FileObject
  unfolding find_file save_file
  make_permanent id = do
    raise_when (not app.settings.lifecycle.policy.permanent_allowed) invalid_lifecycle_policy
    f ← find_file id
    raise_when f.legal_hold file_under_legal_hold
    let g : FileObject = record f {
      lifecycle_mode = Mode.permanent;
      lifecycle_action = LifecycleAction.none_action;
      ttl_seconds = none;
      expires_at = none;
      next_action_at = none;
    }
    modify_db (λ db. noted (codes "lifecycle.make_permanent") g none (save_file g db))
    pure g

  unfoldable pub set_legal_hold : ℕ → Bool → Action S FileObject
  unfolding find_file save_file
  set_legal_hold id hold = do
    f ← find_file id
    let g : FileObject = record f { legal_hold = hold }
    modify_db (λ db.
        noted (if hold then codes "legal_hold.set" else codes "legal_hold.released") g none
          (save_file g db))
    pure g
