-- ===== src/Lifecycle/Mode.antt =====
-- The lifecycle modes and actions of app/db/models.py, as texts of a request. A text that is none of
-- the members of the enumeration is `other`. Times are microseconds since the year 1, which is where
-- Python's `datetime` begins.
use pyupload_x.Base.{ℕ, ◌*◌, Bool, true, false, ◌||◌, List, [], ◌∷◌, Text, text_eq}

abbrev pub Time : Type 0
Time = ℕ

-- `timedelta(seconds=n)`
abbrev pub seconds : ℕ → Time
seconds n = n * 1000000

pub data Mode : Type 0 where
  permanent ttl expires_at temporary sliding_ttl : Mode
  other : Text → Mode

pub data LifecycleAction : Type 0 where
  delete notify none_action : LifecycleAction
  other : Text → LifecycleAction

unfoldable pub mode_eq : Mode → Mode → Bool
mode_eq Mode.permanent Mode.permanent = true
mode_eq Mode.ttl Mode.ttl = true
mode_eq Mode.expires_at Mode.expires_at = true
mode_eq Mode.temporary Mode.temporary = true
mode_eq Mode.sliding_ttl Mode.sliding_ttl = true
mode_eq (Mode.other s) (Mode.other t) = text_eq s t
mode_eq _ _ = false

unfoldable pub action_eq : LifecycleAction → LifecycleAction → Bool
action_eq LifecycleAction.delete LifecycleAction.delete = true
action_eq LifecycleAction.notify LifecycleAction.notify = true
action_eq LifecycleAction.none_action LifecycleAction.none_action = true
action_eq (LifecycleAction.other s) (LifecycleAction.other t) = text_eq s t
action_eq _ _ = false

-- `mode in allowed_modes`
unfoldable pub contains_mode : Mode → List Mode → Bool
unfolding mode_eq
contains_mode m [] = false
contains_mode m (n ∷ ns) = mode_eq m n || contains_mode m ns

unfoldable pub contains_action : LifecycleAction → List LifecycleAction → Bool
unfolding action_eq
contains_action a [] = false
contains_action a (b ∷ bs) = action_eq a b || contains_action a bs
