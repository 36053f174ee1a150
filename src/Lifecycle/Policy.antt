-- ===== src/Lifecycle/Policy.antt =====
-- app/lifecycle/policy.py: the policy that results from a client's request and the server's rules.
-- An expiry is kept as the time that its ISO text stands for, which `fromisoformat` reads back.
pub mod Retention
use pyupload_x.Base.{
  ℕ, zero, ◌+◌, ◌-◌, ◌/◌, Bool, not, ◌&&◌, Option, none, some, List, leb, if◌then◌else◌,
}
use pyupload_x.Base.Int.{ℤ, pos, pos_part, sub_ℕ, leb_ℤ, ltb_ℤ}
use pyupload_x.Errors.{
  Result, ok, err, ◌>>=◌, ◌>>◌, raise_if, invalid_lifecycle_policy, ttl_out_of_range, exception,
  PyException,
}
use pyupload_x.Lifecycle.Mode.{
  Time, seconds, Mode, LifecycleAction, mode_eq, contains_mode, contains_action,
}

-- What a request gives as `expires_at`: a time, or a text that `fromisoformat` refuses.
pub data Moment : Type 0 where
  at : Time → Moment
  unreadable : Moment

-- The fields of the request; `none` stands for a field that is missing, null or empty.
pub record Requested : Type 0 where
  pub mode : Option Mode
  pub action : Option LifecycleAction
  pub ttl_seconds : Option ℤ
  pub expires_at : Option Moment

abbrev pub empty_request : Requested
empty_request = record { mode = none; action = none; ttl_seconds = none; expires_at = none }

pub record ServerDefault : Type 0 where
  pub mode : Option Mode
  pub action : Option LifecycleAction
  pub ttl_seconds : Option ℤ

-- `LifecyclePolicyRules` of app/config/models.py
pub record PolicyRules : Type 0 where
  pub allow_client_override : Bool
  pub permanent_allowed : Bool
  pub minimum_ttl_seconds : ℕ
  pub maximum_ttl_seconds : ℕ
  pub allowed_modes : List Mode
  pub allowed_actions : List LifecycleAction

pub record Effective : Type 0 where
  pub mode : Mode
  pub action : LifecycleAction
  pub ttl_seconds : Option ℤ
  pub expires_at : Option Time

-- `a or b`, where the empty value has been read as `none`
abbrev pub or_else {ℓ} : {A : Type ℓ} → Option A → Option A → Option A
or_else none b = b
or_else (some a) b = some a

abbrev pub or_value {ℓ} : {A : Type ℓ} → Option A → A → A
or_value none b = b
or_value (some a) b = a

-- a number of a request: 0 counts as missing before `or`
abbrev pub nonzero : Option ℤ → Option ℤ
nonzero none = none
nonzero (some (pos zero)) = none
nonzero (some z) = some z

-- `requested = dict(requested) if requested else {}`, and the override switch
abbrev pub considered : PolicyRules → Option Requested → Requested
considered rules none = empty_request
considered rules (some r) = if rules.allow_client_override then r else empty_request

-- `minimum <= ttl_seconds <= maximum`
abbrev pub in_range : PolicyRules → ℤ → Bool
in_range rules z =
    leb_ℤ (pos rules.minimum_ttl_seconds) z && leb_ℤ z (pos rules.maximum_ttl_seconds)

-- `int((parsed - base).total_seconds())`, which truncates towards 0
unfoldable pub remaining_seconds : Time → Time → ℤ
remaining_seconds parsed base =
    if leb base parsed then pos ((parsed - base) / 1000000) else sub_ℕ 0 ((base - parsed) / 1000000)

module _ (rules : PolicyRules) (mode : Mode) (action : LifecycleAction) where
  -- The branches `ttl`, `temporary` and `sliding_ttl`.
  unfoldable pub ttl_lifecycle : Option ℤ → Time → Result Effective
  ttl_lifecycle none base = err invalid_lifecycle_policy
  ttl_lifecycle (some z) base =
      if in_range rules z
      then ok (record {
        mode = mode;
        action = action;
        ttl_seconds = some z;
        expires_at = some (base + seconds (pos_part z));
      })
      else err (ttl_out_of_range z (pos rules.minimum_ttl_seconds) (pos rules.maximum_ttl_seconds))

  -- The branch `expires_at`.
  unfoldable pub until_lifecycle : Option Moment → Time → Result Effective
  unfolding remaining_seconds
  until_lifecycle none base = err invalid_lifecycle_policy
  until_lifecycle (some unreadable) base = err (exception PyException.value_error)
  until_lifecycle (some (at parsed)) base =
      let remaining = remaining_seconds parsed base in
      if ltb_ℤ remaining (pos rules.minimum_ttl_seconds)
      then err (
          ttl_out_of_range remaining (pos rules.minimum_ttl_seconds)
            (pos rules.maximum_ttl_seconds))
      else ok (record {
        mode = mode;
        action = action;
        ttl_seconds = some remaining;
        expires_at = some parsed;
      })

  abbrev pub plain_lifecycle : Result Effective
  plain_lifecycle =
      ok (record { mode = mode; action = action; ttl_seconds = none; expires_at = none })

unfoldable pub lifecycle_for :
    PolicyRules → Mode → LifecycleAction → Option ℤ → Option Moment → Time → Result Effective
unfolding ttl_lifecycle until_lifecycle
lifecycle_for rules Mode.ttl action ttl expiry base = ttl_lifecycle rules Mode.ttl action ttl base
lifecycle_for rules Mode.temporary action ttl expiry base =
    ttl_lifecycle rules Mode.temporary action ttl base
lifecycle_for rules Mode.sliding_ttl action ttl expiry base =
    ttl_lifecycle rules Mode.sliding_ttl action ttl base
lifecycle_for rules Mode.expires_at action ttl expiry base =
    until_lifecycle rules Mode.expires_at action expiry base
lifecycle_for rules Mode.permanent action ttl expiry base =
    plain_lifecycle rules Mode.permanent action
lifecycle_for rules (Mode.other s) action ttl expiry base =
    plain_lifecycle rules (Mode.other s) action

-- The rest of the function, from the request that is considered and the base time on.
unfoldable pub decide : PolicyRules → ServerDefault → Time → Requested → Result Effective
unfolding lifecycle_for contains_mode contains_action
decide rules server base asked =
    let mode = or_value asked.mode (or_value server.mode Mode.ttl) in
    let action = or_value asked.action (or_value server.action LifecycleAction.delete) in
    let ttl = or_else (or_else (nonzero asked.ttl_seconds) server.ttl_seconds) server.ttl_seconds in
    do
      raise_if (not (contains_mode mode rules.allowed_modes)) invalid_lifecycle_policy
      raise_if (not (contains_action action rules.allowed_actions)) invalid_lifecycle_policy
      raise_if (mode_eq mode Mode.permanent && not rules.permanent_allowed) invalid_lifecycle_policy
      lifecycle_for rules mode action ttl asked.expires_at base

-- `now` is the clock, which is read where no completion time is given.
unfoldable pub compute_effective_lifecycle :
    PolicyRules → ServerDefault → Option Requested → Option Time → Time → Result Effective
unfolding decide
compute_effective_lifecycle rules server requested completed_at now =
    decide rules server (or_value completed_at now) (considered rules requested)
