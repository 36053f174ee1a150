-- ===== src/Overrides/Asked.antt =====
-- `update` of app/services/setting_service.py: what is in force afterwards is what the body asked for.
pub mod Body
pub mod Steps
pub mod Groups
use pyupload_x.Base.{◌≡◌, refl, ap, subst, ◌∙◌, Bool, true, false, some, List, Text}
use pyupload_x.Errors.{Error, Result, ok, err, Result-cases, invalid_settings}
use pyupload_x.Config.{Settings}
use pyupload_x.Lifecycle.Policy.{ServerDefault, or_else}
use pyupload_x.Request.{World, Action, continue, raise_when, gets, ◌>>◌}
use pyupload_x.Request.Laws.{bind-eq-ok}
use pyupload_x.Request.Settings.{int_override, text_override, get_lifecycle_default}
use pyupload_x.Ranges.Number.{strip, decimal, max_digits}
use pyupload_x.Overrides.Values.{
  Value, null, truth, whole, fraction, infinite, not_a_number, compound, text, int_field, str_of,
}
use pyupload_x.Overrides.Effective.{
  EffectiveSettings, get_effective, presign_key, max_file_size_key, direct_threshold_key,
  default_part_size_key, session_expiry_key, get_default_bucket,
}
use pyupload_x.Overrides.Update.{
  StorageBody, UploadsBody, PolicyBody, SettingsBody, mode_refused, action_refused, default_modes,
  is_blank, store_number, store_unless_null, store_if_given, store_mode, store_bucket, set_value,
  update_storage, update_uploads, update_lifecycle, update, when_given, checked_ttl, ttl_within,
  has_no_group, within,
}
use pyupload_x.Overrides.Stored.{
  NumberSetting, presign, max_file_size, direct_threshold, part_size, session_expiry, key_of,
  configured, is_allowed, number_at, with_number, int_of-str_of, get_effective-number,
  get_effective-bucket, get_effective-mode, text_override-mode, text_override-solid,
}
use pyupload_x.Overrides.Asked.Body.{
  or_before, asked_number, asked_if_given, asked_bucket, asked_mode, result_value, asked_ttl,
  asked_storage, asked_uploads, asked_policy, asked_lifecycle, is_short, is_short_if_given,
  StorageIsShort, UploadsIsShort,
}
use pyupload_x.Overrides.Asked.Steps.{Leaves, Makes, Makes-then}
use pyupload_x.Overrides.Asked.Groups.{
  update_storage-Makes, update_uploads-Makes, update_lifecycle-Makes,
}

-- A body that is accepted, in state w, leaves in force what it asks for and what was in force where it
-- asks for nothing; this is also the answer.
pub update-asked :
    {S : Type 0} (settings : Settings) (buckets : List Text) (body : SettingsBody) (w v : World S)
    (e : EffectiveSettings)
    → StorageIsShort body.storage
    → UploadsIsShort body.uploads
    → update settings buckets (some body) w ≡ (ok e, v)
    → (e ≡ get_effective settings v.db)
      × (e
          ≡ asked_lifecycle body.lifecycle (
              asked_uploads body.uploads
                (asked_storage body.storage (get_effective settings w.db))))
unfolding update
update-asked {S} settings buckets body w v e short short' h =
    let shape : Action S Unit = raise_when (has_no_group body) invalid_settings in
    let storing = when_given {S = S} settings body.storage (update_storage settings buckets) in
    let uploading = when_given {S = S} settings body.uploads (update_uploads settings) in
    let keeping = when_given {S = S} settings body.lifecycle (update_lifecycle settings) in
    let one =
      Makes-then settings (λ e'. e') (asked_storage body.storage) shape storing
        (checked (has_no_group body)) (update_storage-Makes settings buckets body.storage short) in
    let two =
      Makes-then settings (asked_storage body.storage) (asked_uploads body.uploads)
        (shape >> storing) uploading one (update_uploads-Makes settings body.uploads short') in
    let groups = shape >> storing >> uploading >> keeping in
    let three =
      Makes-then settings (λ e'. asked_uploads body.uploads (asked_storage body.storage e'))
        (asked_lifecycle body.lifecycle) (shape >> storing >> uploading) keeping two
        (update_lifecycle-Makes settings body.lifecycle) in
    let (u, x, ran, last) = bind-eq-ok groups (λ u. gets (λ y. get_effective settings y.db)) w h in
    let now : e ≡ get_effective settings x.db = cc in
    let same : x ≡ v = ap (λ (q : Result EffectiveSettings × World S). q.1) last in
    (
      now ∙ ap (λ (y : World S). get_effective settings y.db) same,
      now
          ∙ subst
              (λ (q : Result (Unit {0}) × World S).
                Leaves settings
                  (λ e'.
                    asked_lifecycle body.lifecycle
                      (asked_uploads body.uploads (asked_storage body.storage e')))
                  (get_effective settings w.db) q.0 q.1)
              ran (three w),
    )
  where
    checked : (b : Bool) → Makes {S = S} settings (λ e'. e') (raise_when b invalid_settings)
    checked true y = tt
    checked false y = refl
