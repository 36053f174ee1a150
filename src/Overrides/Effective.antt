-- ===== src/Overrides/Effective.antt =====
-- `get_effective` of app/services/setting_service.py: the settings in force.
use pyupload_x.Base.{ℕ, Bool, List, Text, codes}
use pyupload_x.Base.Int.{ℤ}
use pyupload_x.Lifecycle.Mode.{Mode, LifecycleAction}
use pyupload_x.Lifecycle.Policy.{ServerDefault}
use pyupload_x.Config.{Settings}
use pyupload_x.Db.{Db}
use pyupload_x.Request.Settings.{
  get_setting, text_override, get_presign_default_seconds, get_max_file_size, get_direct_threshold,
  get_default_mode, get_default_part_size, get_session_expiry, get_lifecycle_default,
}

abbrev pub default_bucket_key : Text
default_bucket_key = codes "storage.default_bucket"

abbrev pub presign_key : Text
presign_key = codes "storage.presign.default_expires_seconds"

abbrev pub max_file_size_key : Text
max_file_size_key = codes "uploads.maximum_file_size_bytes"

abbrev pub direct_threshold_key : Text
direct_threshold_key = codes "uploads.direct_upload_threshold_bytes"

abbrev pub default_mode_key : Text
default_mode_key = codes "uploads.default_mode"

abbrev pub default_part_size_key : Text
default_part_size_key = codes "uploads.multipart.default_part_size_bytes"

abbrev pub session_expiry_key : Text
session_expiry_key = codes "uploads.session.expires_after_seconds"

-- `get_default_bucket`
unfoldable pub get_default_bucket : Settings → Db → Text
unfolding get_setting
get_default_bucket settings db =
    text_override (get_setting default_bucket_key db.settings) settings.storage.default_bucket

-- What `get_effective` answers.
pub record EffectiveSettings : Type 0 where
  pub default_bucket : Text
  pub presign_default_expires_seconds : ℤ
  pub maximum_expires_seconds : ℕ
  pub maximum_file_size_bytes : ℤ
  pub direct_upload_threshold_bytes : ℤ
  pub default_mode : Text
  pub default_part_size_bytes : ℤ
  pub minimum_part_size_bytes : ℕ
  pub maximum_part_size_bytes : ℕ
  pub maximum_parts : ℕ
  pub expires_after_seconds : ℤ
  pub maximum_lifetime_seconds : ℕ
  pub default_policy : ServerDefault
  pub allowed_modes : List Mode
  pub allowed_actions : List LifecycleAction
  pub permanent_allowed : Bool
  pub minimum_ttl_seconds : ℕ
  pub maximum_ttl_seconds : ℕ

unfoldable pub get_effective : Settings → Db → EffectiveSettings
unfolding get_default_bucket get_presign_default_seconds get_max_file_size get_direct_threshold
    get_default_mode get_default_part_size get_session_expiry get_lifecycle_default
get_effective settings db = record {
  default_bucket = get_default_bucket settings db;
  presign_default_expires_seconds = get_presign_default_seconds settings db;
  maximum_expires_seconds = settings.presign.maximum_expires_seconds;
  maximum_file_size_bytes = get_max_file_size settings db;
  direct_upload_threshold_bytes = get_direct_threshold settings db;
  default_mode = get_default_mode settings db;
  default_part_size_bytes = get_default_part_size settings db;
  minimum_part_size_bytes = settings.uploads.multipart.minimum_part_size_bytes;
  maximum_part_size_bytes = settings.uploads.multipart.maximum_part_size_bytes;
  maximum_parts = settings.uploads.multipart.maximum_parts;
  expires_after_seconds = get_session_expiry settings db;
  maximum_lifetime_seconds = settings.uploads.session.maximum_lifetime_seconds;
  default_policy = get_lifecycle_default settings db;
  allowed_modes = settings.lifecycle.policy.allowed_modes;
  allowed_actions = settings.lifecycle.policy.allowed_actions;
  permanent_allowed = settings.lifecycle.policy.permanent_allowed;
  minimum_ttl_seconds = settings.lifecycle.policy.minimum_ttl_seconds;
  maximum_ttl_seconds = settings.lifecycle.policy.maximum_ttl_seconds;
}
