-- ===== src/Lifecycle/Policy/Retention.antt =====
-- app/lifecycle/policy.py: the retention that the server's rules leave to a client.
use pyupload_x.Base.{
  ℕ, ◌+◌, ◌≤◌, ◌≡◌, refl, sym, subst, true, false, not, ◌&&◌, Option, none, some, arith,
}
use pyupload_x.Base.Int.{ℤ, pos, negsuc}
use pyupload_x.Errors.{ok, raise_if-eq-ok}
use pyupload_x.Lifecycle.Mode.{
  Time, seconds, Mode, LifecycleAction, mode_eq, contains_mode, contains_action,
}
use pyupload_x.Lifecycle.Policy.{
  Moment, at, unreadable, Requested, empty_request, ServerDefault, PolicyRules, Effective, or_value,
  considered, ttl_lifecycle, until_lifecycle, lifecycle_for, compute_effective_lifecycle, decide,
}

-- a retention of some seconds within the rules, counted from `base`
abbrev pub Timed : PolicyRules → Time → Effective → Type 0
Timed rules base e =
    (n : ℕ) × (e.ttl_seconds ≡ some (pos n))
    × (rules.minimum_ttl_seconds ≤ n)
    × (n ≤ rules.maximum_ttl_seconds)
    × (e.expires_at ≡ some (base + seconds n))

-- no expiry at all
abbrev pub Unlimited : Effective → Type 0
Unlimited e = (e.ttl_seconds ≡ none) × (e.expires_at ≡ none)

-- What the rules leave of each mode.
abbrev pub Allows : PolicyRules → Time → Effective → Mode → Type 0
Allows rules base e Mode.ttl = Timed rules base e
Allows rules base e Mode.temporary = Timed rules base e
Allows rules base e Mode.sliding_ttl = Timed rules base e
Allows rules base e Mode.expires_at =
    (t : Time) × (e.expires_at ≡ some t) × (base + seconds rules.minimum_ttl_seconds ≤ t)
Allows rules base e Mode.permanent = (rules.permanent_allowed ≡ true) × Unlimited e
Allows rules base e (Mode.other s) = Unlimited e

pub record IsAllowed (rules : PolicyRules) (base : Time) (e : Effective) : Type 0 where
  pub mode : contains_mode e.mode rules.allowed_modes ≡ true
  pub action : contains_action e.action rules.allowed_actions ≡ true
  pub retention : Allows rules base e e.mode

ttl_lifecycle-Timed :
    (rules : PolicyRules) (mode : Mode) (action : LifecycleAction) (ttl : Option ℤ) (base : Time)
    (e : Effective)
    → ttl_lifecycle rules mode action ttl base ≡ ok e
    → Timed rules base e × (e.mode ≡ mode) × (e.action ≡ action)
unfolding ttl_lifecycle
ttl_lifecycle-Timed rules mode action none base e h = cc
ttl_lifecycle-Timed rules mode action (some (negsuc n)) base e h = ground arith
ttl_lifecycle-Timed rules mode action (some (pos n)) base e h =
    ((n, ground arith, ground arith, ground arith, ground arith), ground arith, ground arith)

until_lifecycle-late :
    (rules : PolicyRules) (mode : Mode) (action : LifecycleAction) (expiry : Option Moment)
    (base : Time) (e : Effective)
    → 1 ≤ rules.minimum_ttl_seconds
    → until_lifecycle rules mode action expiry base ≡ ok e
    → ((t : Time) × (e.expires_at ≡ some t) × (base + seconds rules.minimum_ttl_seconds ≤ t))
      × (e.mode ≡ mode)
      × (e.action ≡ action)
unfolding until_lifecycle
until_lifecycle-late rules mode action none base e p h = cc
until_lifecycle-late rules mode action (some unreadable) base e p h = cc
until_lifecycle-late rules mode action (some (at t)) base e p h =
    ((t, ground arith, ground arith), ground arith, ground arith)

at_mode :
    (rules : PolicyRules) (base : Time) (e : Effective) (mode : Mode)
    → e.mode ≡ mode
    → Allows rules base e mode
    → Allows rules base e e.mode
at_mode rules base e mode same h = subst (Allows rules base e) (sym same) h

lifecycle_for-Allows :
    (rules : PolicyRules) (mode : Mode) (action : LifecycleAction) (ttl : Option ℤ)
    (expiry : Option Moment) (base : Time) (e : Effective)
    → 1 ≤ rules.minimum_ttl_seconds
    → (mode_eq mode Mode.permanent && not rules.permanent_allowed) ≡ false
    → lifecycle_for rules mode action ttl expiry base ≡ ok e
    → Allows rules base e mode × (e.mode ≡ mode) × (e.action ≡ action)
unfolding lifecycle_for mode_eq
lifecycle_for-Allows rules Mode.ttl action ttl expiry base e m p h =
    ttl_lifecycle-Timed rules Mode.ttl action ttl base e h
lifecycle_for-Allows rules Mode.temporary action ttl expiry base e m p h =
    ttl_lifecycle-Timed rules Mode.temporary action ttl base e h
lifecycle_for-Allows rules Mode.sliding_ttl action ttl expiry base e m p h =
    ttl_lifecycle-Timed rules Mode.sliding_ttl action ttl base e h
lifecycle_for-Allows rules Mode.expires_at action ttl expiry base e m p h =
    until_lifecycle-late rules Mode.expires_at action expiry base e m h
lifecycle_for-Allows rules Mode.permanent action ttl expiry base e m p h =
    ((ground arith, (ground arith, ground arith)), ground arith, ground arith)
lifecycle_for-Allows rules (Mode.other s) action ttl expiry base e m p h =
    ((ground arith, ground arith), ground arith, ground arith)

-- Whatever a client asks for, the policy that results has a mode and an action that the server
-- allows. Where it counts seconds they lie between the two limits, and the expiry is so many seconds
-- after the base time (the completion time, or else the clock); where it names a time, that is at
-- least the minimum after the base time; a permanent one is allowed by the server. The server's
-- minimum is a positive number of seconds.
pub compute_effective_lifecycle-IsAllowed :
    (rules : PolicyRules) (server : ServerDefault) (requested : Option Requested)
    (completed_at : Option Time) (now : Time) (e : Effective)
    → 1 ≤ rules.minimum_ttl_seconds
    → compute_effective_lifecycle rules server requested completed_at now ≡ ok e
    → IsAllowed rules (or_value completed_at now) e
unfolding compute_effective_lifecycle decide
compute_effective_lifecycle-IsAllowed rules server requested completed_at now e m h =
    let asked = considered rules requested in
    let mode = or_value asked.mode (or_value server.mode Mode.ttl) in
    let action = or_value asked.action (or_value server.action LifecycleAction.delete) in
    let (known, h₁) = raise_if-eq-ok (not (contains_mode mode rules.allowed_modes)) _ _ h in
    let (known', h₂) = raise_if-eq-ok (not (contains_action action rules.allowed_actions)) _ _ h₁ in
    let (permitted, h₃) =
      raise_if-eq-ok (mode_eq mode Mode.permanent && not rules.permanent_allowed) _ _ h₂ in
    let (allows, same, same') = lifecycle_for-Allows rules mode action _ _ _ e m permitted h₃ in
    record {
      mode = rw same (ground arith);
      action = rw same' (ground arith);
      retention = at_mode rules _ e mode same allows;
    }

-- With the override switched off, the request makes no difference.
pub compute_effective_lifecycle-no_override :
    (rules : PolicyRules) (server : ServerDefault) (r r' : Option Requested)
    (completed_at : Option Time) (now : Time)
    → rules.allow_client_override ≡ false
    → compute_effective_lifecycle rules server r completed_at now
      ≡ compute_effective_lifecycle rules server r' completed_at now
unfolding compute_effective_lifecycle decide
compute_effective_lifecycle-no_override rules server r r' completed_at now off =
    rw (ignored r) (rw (ignored r') refl)
  where
    ignored : (x : Option Requested) → considered rules x ≡ empty_request
    ignored none = refl
    ignored (some x) = rw off
