-- ===== src/Overrides/Bounds.antt =====
-- `update` of app/services/setting_service.py: what is in force stays within its limits.
pub mod Steps
use pyupload_x.Base.{
  ℕ, ◌+◌, ◌≡◌, refl, subst, inl, inr, Bool, true, false, not, ◌||◌, Option, none, some, List, arith,
  leb, Bool-cases, length, Text, contains_text,
}
use pyupload_x.Base.Int.{ℤ, pos, pos_part, neg_part}
use pyupload_x.Errors.{Result, ok, err, Result-cases, invalid_settings}
use pyupload_x.Config.{Settings}
use pyupload_x.Lifecycle.Policy.{or_else}
use pyupload_x.Request.{World, Action, continue, raise_when, gets, ◌>>◌}
use pyupload_x.Request.Settings.{int_override, get_lifecycle_default}
use pyupload_x.Ranges.Number.{strip, decimal, max_digits}
use pyupload_x.Overrides.Values.{Value, null, fraction, not_a_number, text, int_field, str_of}
use pyupload_x.Overrides.Effective.{
  EffectiveSettings, get_effective, presign_key, max_file_size_key, direct_threshold_key,
  default_part_size_key, session_expiry_key,
}
use pyupload_x.Overrides.Update.{
  is_blank, StorageBody, UploadsBody, PolicyBody, SettingsBody, within, mode_refused,
  action_refused, default_modes, store_number, store_unless_null, store_if_given, store_mode,
  store_bucket, set_value, update_storage, update_uploads, update_lifecycle, update, when_given,
  checked_ttl, ttl_within, has_no_group,
}
use pyupload_x.Overrides.Stored.{
  NumberSetting, presign, max_file_size, direct_threshold, part_size, session_expiry, key_of,
  configured, is_allowed, with_number, int_of-str_of, get_effective-number, get_effective-bucket,
  get_effective-mode, text_override-mode,
}
use pyupload_x.Overrides.Bounds.Steps.{
  ttl_refused, IsWithin, IsHeld, Keeps, Keeps-then, or_else-refused, checked_ttl-allowed,
  store_unless_null-IsHeld, store_if_given-IsHeld, store_mode-IsHeld, store_bucket-IsHeld,
}

module _ {S : Type 0} (settings : Settings)
    (configured-IsAllowed : (n : NumberSetting)
      → is_allowed settings n (pos (configured settings n)) ≡ true) where
  update_storage-IsHeld :
      (buckets : List Text) (body : StorageBody)
      → Keeps (IsHeld settings) (update_storage {S = S} settings buckets body)
  unfolding update_storage
  update_storage-IsHeld buckets body =
      Keeps-then (IsHeld settings) (store_bucket buckets body.default_bucket)
        (store_unless_null presign_key (is_allowed settings presign)
          body.presign_default_expires_seconds)
        (store_bucket-IsHeld settings buckets body.default_bucket)
        (store_unless_null-IsHeld settings presign body.presign_default_expires_seconds
          (configured-IsAllowed presign))

  update_uploads-IsHeld :
      (body : UploadsBody) → Keeps (IsHeld settings) (update_uploads {S = S} settings body)
  unfolding update_uploads
  update_uploads-IsHeld body =
      let size : Action S Unit =
        store_unless_null max_file_size_key (is_allowed settings max_file_size)
          body.maximum_file_size_bytes in
      let threshold : Action S Unit =
        store_unless_null direct_threshold_key (is_allowed settings direct_threshold)
          body.direct_upload_threshold_bytes in
      let mode : Action S Unit = store_mode body.default_mode in
      let part : Action S Unit =
        store_if_given default_part_size_key (is_allowed settings part_size)
          body.default_part_size_bytes in
      let expiry : Action S Unit =
        store_if_given session_expiry_key (is_allowed settings session_expiry)
          body.expires_after_seconds in
      let two =
        Keeps-then (IsHeld settings) size threshold
          (store_unless_null-IsHeld settings max_file_size body.maximum_file_size_bytes
            (configured-IsAllowed max_file_size))
          (store_unless_null-IsHeld settings direct_threshold body.direct_upload_threshold_bytes
            (configured-IsAllowed direct_threshold)) in
      let three =
        Keeps-then (IsHeld settings) (size >> threshold) mode two
          (store_mode-IsHeld settings body.default_mode) in
      let four = Keeps-then (IsHeld settings) (size >> threshold >> mode) part three (
        store_if_given-IsHeld settings part_size body.default_part_size_bytes
          (configured-IsAllowed part_size)) in
      Keeps-then (IsHeld settings) (size >> threshold >> mode >> part) expiry four (
        store_if_given-IsHeld settings session_expiry body.expires_after_seconds
          (configured-IsAllowed session_expiry))

  update_lifecycle-IsHeld :
      (body : Option PolicyBody) → Keeps (IsHeld settings) (update_lifecycle {S = S} settings body)
  unfolding update_lifecycle get_effective get_lifecycle_default
  update_lifecycle-IsHeld none w h = h
  update_lifecycle-IsHeld (some policy) w h =
      let rules = settings.lifecycle.policy in
      let current = get_lifecycle_default settings w.db in
      elim (Bool-cases (mode_refused policy.mode rules.allowed_modes)) [
        | inl g ↦ rw g h
        | inr g ↦ elim (Bool-cases (action_refused policy.action rules.allowed_actions)) [
          | inl k ↦ rw (g, k) h
          | inr k ↦
              elim (Result-cases (
                checked_ttl rules.minimum_ttl_seconds rules.maximum_ttl_seconds
                  policy.ttl_seconds)) [
                    | inr (e, f) ↦ rw (g, k, f) h
                    | inl (ttl, f) ↦
                        rw (g, k, f)
                          (
                            h.0,
                            h.1,
                            h.2,
                            h.3,
                            h.4,
                            h.5,
                            or_else-refused (λ m. mode_refused m rules.allowed_modes) policy.mode
                                current.mode g h.6,
                            or_else-refused (λ a. action_refused a rules.allowed_actions)
                                policy.action current.action k h.7,
                            or_else-refused
                                (ttl_refused rules.minimum_ttl_seconds rules.maximum_ttl_seconds)
                                ttl current.ttl_seconds
                                (checked_ttl-allowed rules.minimum_ttl_seconds
                                  rules.maximum_ttl_seconds policy.ttl_seconds ttl f)
                                h.8,
                          )
                  ]
        ]
      ]

  -- If the numbers of the configuration are within the limits, and what is in force is, then it is
  -- so after every request to update the settings, whether it returns or raises.
  pub update-IsWithin :
      (buckets : List Text) (body : Option SettingsBody) (w : World S)
      → IsWithin settings (get_effective settings w.db)
      → IsWithin settings (get_effective settings (update settings buckets body w).1.db)
  unfolding update
  update-IsWithin buckets none w h = h
  update-IsWithin buckets (some body) w h =
      let shape : Action S Unit = raise_when (has_no_group body) invalid_settings in
      let storing = when_given {S = S} settings body.storage (update_storage settings buckets) in
      let uploading = when_given {S = S} settings body.uploads (update_uploads settings) in
      let keeping = when_given {S = S} settings body.lifecycle (update_lifecycle settings) in
      let one =
        Keeps-then (IsHeld settings) shape storing (checked (has_no_group body))
          (given body.storage (update_storage settings buckets) (update_storage-IsHeld buckets)) in
      let two =
        Keeps-then (IsHeld settings) (shape >> storing) uploading one
          (given body.uploads (update_uploads settings) update_uploads-IsHeld) in
      let three =
        Keeps-then (IsHeld settings) (shape >> storing >> uploading) keeping two
          (given body.lifecycle (update_lifecycle settings) update_lifecycle-IsHeld) in
      Keeps-then (IsHeld settings) (shape >> storing >> uploading >> keeping)
        (gets (λ v. get_effective settings v.db)) three (λ v k. k) w h
    where
      checked : (b : Bool) → Keeps {S = S} (IsHeld settings) (raise_when b invalid_settings)
      checked true v k = k
      checked false v k = k

      given :
          {A : Type 0} (o : Option A) (f : A → Action S Unit)
          → ((a : A) → Keeps (IsHeld settings) (f a))
          → Keeps (IsHeld settings) (when_given settings o f)
      given none f l v k = k
      given (some b) f l v k = l b v k
