-- ===== src/Config.antt =====
-- app/config/models.py: the settings that the modelled services read. Sizes, counts and durations
-- of the configuration file are natural numbers.
use pyupload_x.Base.{ℕ, Bool, Option, List, Text}
use pyupload_x.Lifecycle.Policy.{PolicyRules, ServerDefault}

pub data BackendName : Type 0 where
  local s3 : BackendName

pub record MultipartConfig : Type 0 where
  pub enabled : Bool
  pub default_part_size_bytes : ℕ
  pub minimum_part_size_bytes : ℕ
  pub maximum_part_size_bytes : ℕ
  pub maximum_parts : ℕ
  pub maximum_presign_batch_size : ℕ

pub record SessionConfig : Type 0 where
  pub expires_after_seconds : ℕ
  pub maximum_lifetime_seconds : ℕ
  pub refresh_enabled : Bool

pub record UploadsConfig : Type 0 where
  pub default_mode : Text
  pub direct_upload_threshold_bytes : ℕ
  pub object_conflict_policy : Text
  pub multipart : MultipartConfig
  pub session : SessionConfig
  pub maximum_bytes : ℕ

pub record PresignConfig : Type 0 where
  pub default_expires_seconds : ℕ
  pub maximum_expires_seconds : ℕ
  pub upload_part_expires_seconds : ℕ

pub record PermanentLinkConfig : Type 0 where
  pub enabled : Bool
  pub secret : Option Text

pub record DirectoryUploadLimits : Type 0 where
  pub maximum_path_depth : ℕ
  pub maximum_relative_path_bytes : ℕ
  pub maximum_entries_per_manifest_request : ℕ

pub record DirectoryUploadConfig : Type 0 where
  pub enabled : Bool
  pub limits : DirectoryUploadLimits
  pub default_policy : Text
  pub allowed_policies : List Text

pub record LifecycleConfig : Type 0 where
  pub enabled : Bool
  pub default_policy : ServerDefault
  pub policy : PolicyRules

pub record StorageConfig : Type 0 where
  pub backend : BackendName
  pub default_bucket : Text
  pub allowed_buckets : List Text

pub record Settings : Type 0 where
  pub storage : StorageConfig
  pub uploads : UploadsConfig
  pub presign : PresignConfig
  pub permanent_link : PermanentLinkConfig
  pub directory_upload : DirectoryUploadConfig
  pub lifecycle : LifecycleConfig
