-- ===== src/Overrides/Asked/Groups.antt =====
-- `update` of app/services/setting_service.py: what each group of a body leaves in force.
use pyupload_x.Base.{ℕ, ◌≡◌, refl, ap, inl, inr, Option, none, some, List, arith, Bool-cases, Text}
use pyupload_x.Base.Int.{ℤ}
use pyupload_x.Errors.{Result, ok, err, Result-cases}
use pyupload_x.Config.{Settings}
use pyupload_x.Lifecycle.Policy.{or_else}
use pyupload_x.Request.{Action, ◌>>◌}
use pyupload_x.Request.Settings.{get_lifecycle_default}
use pyupload_x.Overrides.Values.{Value, null, int_field}
use pyupload_x.Overrides.Effective.{
  EffectiveSettings, get_effective, presign_key, max_file_size_key, direct_threshold_key,
  default_part_size_key, session_expiry_key,
}
use pyupload_x.Overrides.Update.{
  StorageBody, UploadsBody, PolicyBody, mode_refused, action_refused, store_unless_null,
  store_if_given, store_mode, store_bucket, update_storage, update_uploads, update_lifecycle,
  when_given, checked_ttl, ttl_within,
}
use pyupload_x.Overrides.Stored.{
  presign, max_file_size, direct_threshold, part_size, session_expiry, is_allowed, with_number,
}
use pyupload_x.Overrides.Asked.Body.{
  asked_number, asked_if_given, asked_bucket, asked_mode, result_value, asked_ttl, asked_storage,
  asked_uploads, asked_lifecycle, StorageIsShort, UploadsIsShort,
}
use pyupload_x.Overrides.Asked.Steps.{
  Makes, Makes-then, store_unless_null-Makes, store_if_given-Makes, store_mode-Makes,
  store_bucket-Makes,
}

ttl_within-asked :
    (lo hi : ℕ) (r : Result ℤ) (ttl : Option ℤ) → ttl_within lo hi r ≡ ok ttl → ttl ≡ result_value r
ttl_within-asked lo hi (err e) ttl h = cc
ttl_within-asked lo hi (ok z) ttl h = ground arith

checked_ttl-asked :
    (lo hi : ℕ) (v : Value) (ttl : Option ℤ) → checked_ttl lo hi v ≡ ok ttl → ttl ≡ asked_ttl v
checked_ttl-asked lo hi null ttl h = cc
checked_ttl-asked lo hi v ttl h = ttl_within-asked lo hi (int_field v) ttl h

module _ {S : Type 0} (settings : Settings) where
  pub update_storage-Makes :
      (buckets : List Text) (b : Option StorageBody)
      → StorageIsShort b
      → Makes {S = S} settings
          (asked_storage b)
          (when_given settings b (update_storage settings buckets))
  unfolding update_storage
  update_storage-Makes buckets none short w = refl
  update_storage-Makes buckets (some b) short w =
      Makes-then settings
        (λ e. record e { default_bucket = asked_bucket b.default_bucket e.default_bucket })
        (λ e.
          with_number presign
            (asked_number b.presign_default_expires_seconds e.presign_default_expires_seconds) e)
        (store_bucket buckets b.default_bucket)
        (store_unless_null presign_key (is_allowed settings presign)
          b.presign_default_expires_seconds)
        (store_bucket-Makes settings buckets b.default_bucket)
        (store_unless_null-Makes settings presign b.presign_default_expires_seconds short) w

  pub update_uploads-Makes :
      (b : Option UploadsBody)
      → UploadsIsShort b
      → Makes {S = S} settings (asked_uploads b) (when_given settings b (update_uploads settings))
  unfolding update_uploads
  update_uploads-Makes none short w = refl
  update_uploads-Makes (some b) short w =
      let size : Action S Unit =
        store_unless_null max_file_size_key (is_allowed settings max_file_size)
          b.maximum_file_size_bytes in
      let threshold : Action S Unit =
        store_unless_null direct_threshold_key (is_allowed settings direct_threshold)
          b.direct_upload_threshold_bytes in
      let mode : Action S Unit = store_mode b.default_mode in
      let part : Action S Unit =
        store_if_given default_part_size_key (is_allowed settings part_size)
          b.default_part_size_bytes in
      let expiry : Action S Unit =
        store_if_given session_expiry_key (is_allowed settings session_expiry)
          b.expires_after_seconds in
      let f1 = λ (e : EffectiveSettings).
        with_number max_file_size (asked_number b.maximum_file_size_bytes e.maximum_file_size_bytes)
          e in
      let f2 = λ (e : EffectiveSettings).
        with_number direct_threshold
          (asked_number b.direct_upload_threshold_bytes e.direct_upload_threshold_bytes) e in
      let f3 = λ (e : EffectiveSettings). record e {
        default_mode = asked_mode b.default_mode e.default_mode;
      } in
      let f4 = λ (e : EffectiveSettings).
        with_number part_size (asked_if_given b.default_part_size_bytes e.default_part_size_bytes)
          e in
      let f5 = λ (e : EffectiveSettings).
        with_number session_expiry (asked_if_given b.expires_after_seconds e.expires_after_seconds)
          e in
      let two =
        Makes-then settings f1 f2 size threshold
          (store_unless_null-Makes settings max_file_size b.maximum_file_size_bytes short.0)
          (store_unless_null-Makes settings direct_threshold b.direct_upload_threshold_bytes
            short.1) in
      let three =
        Makes-then settings (λ e. f2 (f1 e)) f3 (size >> threshold) mode two
          (store_mode-Makes settings b.default_mode) in
      let four =
        Makes-then settings (λ e. f3 (f2 (f1 e))) f4 (size >> threshold >> mode) part three
          (store_if_given-Makes settings part_size b.default_part_size_bytes short.2) in
      Makes-then settings (λ e. f4 (f3 (f2 (f1 e)))) f5 (size >> threshold >> mode >> part) expiry
        four (store_if_given-Makes settings session_expiry b.expires_after_seconds short.3) w

  pub update_lifecycle-Makes :
      (b : Option (Option PolicyBody))
      → Makes {S = S} settings
          (asked_lifecycle b)
          (when_given settings b (update_lifecycle settings))
  unfolding update_lifecycle get_effective get_lifecycle_default
  update_lifecycle-Makes none w = refl
  update_lifecycle-Makes (some none) w = tt
  update_lifecycle-Makes (some (some p)) w =
      let rules = settings.lifecycle.policy in
      elim (Bool-cases (mode_refused p.mode rules.allowed_modes)) [
        | inl g ↦ rw g tt
        | inr g ↦ elim (Bool-cases (action_refused p.action rules.allowed_actions)) [
          | inl k ↦ rw (g, k) tt
          | inr k ↦
              elim (Result-cases
                (checked_ttl rules.minimum_ttl_seconds rules.maximum_ttl_seconds p.ttl_seconds)) [
                  | inr (e, f) ↦ rw (g, k, f) tt
                  | inl (ttl, f) ↦
                      rw (g, k, f)
                        (ap
                          (λ t. record (get_effective settings w.db) {
                            default_policy = record (get_effective settings w.db).default_policy {
                              mode =
                                  or_else p.mode (get_effective settings w.db).default_policy.mode;
                              action =
                                  or_else p.action
                                    (get_effective settings w.db).default_policy.action;
                              ttl_seconds =
                                  or_else t
                                    (get_effective settings w.db).default_policy.ttl_seconds;
                            };
                          })
                          (checked_ttl-asked rules.minimum_ttl_seconds rules.maximum_ttl_seconds
                            p.ttl_seconds ttl f))
                ]
        ]
      ]
