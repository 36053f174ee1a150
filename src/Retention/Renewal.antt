-- ===== src/Retention/Renewal.antt =====
-- `extend` of app/services/lifecycle_service.py: the expiry that it leaves.
use pyupload_x.Base.{
  ℕ, suc, ◌+◌, ◌≡◌, refl, ap, subst, ◌∙◌, Bool, true, false, not, ◌&&◌, ◌||◌, Option, some, arith,
}
use pyupload_x.Base.Int.{ℤ, pos}
use pyupload_x.Errors.{ok, file_not_found, invalid_lifecycle_policy, raise_if-eq-ok}
use pyupload_x.Config.{Settings}
use pyupload_x.Lifecycle.Mode.{
  Time, seconds, Mode, LifecycleAction, mode_eq, contains_mode, contains_action,
}
use pyupload_x.Lifecycle.Policy.{
  Moment, at, Requested, Effective, compute_effective_lifecycle, decide, lifecycle_for,
  ttl_lifecycle, or_value, considered, PolicyRules,
}
use pyupload_x.Db.Rows.{FileObject}
use pyupload_x.Db.Files.{get_file}
use pyupload_x.Request.{World, Identity, App}
use pyupload_x.Request.Laws.{lift-eq-ok, or_raise-eq-ok, raise_when-eq-ok}
use pyupload_x.Uploads.Create.{add_seconds}
use pyupload_x.Retention.Service.{effective_of, apply, find_file, extend, is_positive}

-- the modes that count seconds from the completion
abbrev pub counts_seconds : Mode → Bool
counts_seconds Mode.ttl = true
counts_seconds Mode.temporary = true
counts_seconds Mode.sliding_ttl = true
counts_seconds _ = false

lifecycle_for-counted :
    (settings : Settings) (mode : Mode) (action : LifecycleAction) (n : ℕ) (expiry : Option Moment)
    (base : Time) (e : Effective)
    → counts_seconds mode ≡ true
    → lifecycle_for settings.lifecycle.policy mode action (some (pos n)) expiry base ≡ ok e
    → e.expires_at ≡ some (base + seconds n)
unfolding lifecycle_for ttl_lifecycle
lifecycle_for-counted settings Mode.ttl action n expiry base e c h = ground arith
lifecycle_for-counted settings Mode.temporary action n expiry base e c h = ground arith
lifecycle_for-counted settings Mode.sliding_ttl action n expiry base e c h = ground arith
lifecycle_for-counted settings Mode.permanent action n expiry base e c h = cc
lifecycle_for-counted settings Mode.expires_at action n expiry base e c h = cc
lifecycle_for-counted settings (Mode.other s) action n expiry base e c h = cc

considered-some :
    (rules : PolicyRules) (r : Requested)
    → rules.allow_client_override ≡ true
    → considered rules (some r) ≡ r
considered-some rules r over = rw over refl

effective_of-counted :
    (settings : Settings) (mode : Mode) (action : LifecycleAction) (n : ℕ) (expiry : Option Moment)
    (base now : Time) (e : Effective)
    → settings.lifecycle.policy.allow_client_override ≡ true
    → counts_seconds mode ≡ true
    → effective_of settings
        (record {
          mode = some mode;
          action = some action;
          ttl_seconds = some (pos (suc n));
          expires_at = expiry;
        })
        base
        now
      ≡ ok e
    → e.expires_at ≡ some (base + seconds (suc n))
unfolding effective_of compute_effective_lifecycle decide
effective_of-counted settings mode action n expiry base now e over c h =
    let rules = settings.lifecycle.policy in
    let r : Requested = record {
      mode = some mode;
      action = some action;
      ttl_seconds = some (pos (suc n));
      expires_at = expiry;
    } in
    let asked : decide rules settings.lifecycle.default_policy base r ≡ ok e =
      subst (λ (q : Requested). decide rules settings.lifecycle.default_policy base q ≡ ok e)
        (considered-some rules r over) h in
    let (_, h1) = raise_if-eq-ok (not (contains_mode mode rules.allowed_modes)) _ _ asked in
    let (_, h2) = raise_if-eq-ok (not (contains_action action rules.allowed_actions)) _ _ h1 in
    let (_, h3) =
      raise_if-eq-ok (mode_eq mode Mode.permanent && not rules.permanent_allowed) _ _ h2 in
    lifecycle_for-counted settings mode action (suc n) expiry base e c h3

module _ {S : Type 0} (app : App S) (identity : Identity) where
  -- Extending a file whose lifecycle counts seconds from its completion has no effect on its expiry,
  -- where the server lets clients override its defaults: the expiry that results is the completion
  -- time and the file's own number of seconds, whatever the extension was.
  pub extend-ignores_extension :
      (id : ℕ) (z : ℤ) (w : World S) (f g : FileObject) (w' : World S) (n : ℕ)
      → app.settings.lifecycle.policy.allow_client_override ≡ true
      → get_file w.db id (some identity.tenant_id) ≡ some f
      → counts_seconds f.lifecycle_mode ≡ true
      → f.ttl_seconds ≡ some (pos (suc n))
      → extend app identity id z w ≡ (ok g, w')
      → g.expires_at ≡ some (f.completed_at + seconds (suc n))
  unfolding extend find_file apply
  extend-ignores_extension id z w f g w' n over found c ttl h =
      let (f', e, h1) =
        or_raise-eq-ok (get_file w.db id (some identity.tenant_id)) file_not_found _ w h in
      let same : f' ≡ f = ground arith in
      let (_, h2) =
        raise_when-eq-ok
          (mode_eq f'.lifecycle_mode Mode.permanent || mode_eq f'.lifecycle_mode Mode.expires_at)
          invalid_lifecycle_policy _ w h1 in
      let (_, h3) = raise_when-eq-ok (not (is_positive z)) invalid_lifecycle_policy _ w h2 in
      let expiry : Option Moment = some (at (add_seconds (or_value f'.expires_at w.now) z)) in
      let requested : Requested = record {
        mode = some f'.lifecycle_mode;
        action = some f'.lifecycle_action;
        ttl_seconds = f'.ttl_seconds;
        expires_at = expiry;
      } in
      let (eff, policy, h4) =
        lift-eq-ok (effective_of app.settings requested f'.completed_at w.now) _ w h3 in
      let left : g.expires_at ≡ eff.expires_at = ground arith in
      left
      ∙ effective_of-counted app.settings f'.lifecycle_mode f'.lifecycle_action n expiry
          f'.completed_at w.now eff over
          (ap (λ (x : FileObject). counts_seconds x.lifecycle_mode) same ∙ c)
          (subst
            (λ (t : Option ℤ).
              effective_of app.settings (record requested { ttl_seconds = t }) f'.completed_at w.now
              ≡ ok eff)
            (ap (λ (x : FileObject). x.ttl_seconds) same ∙ ttl) policy)
      ∙ ap (λ (x : FileObject). some (x.completed_at + seconds (suc n))) same
