-- ===== src/Request/Settings.antt =====
-- app/services/setting_service.py: the settings that an administrator may override at run time.
use pyupload_x.Base.{ℕ, Option, none, some, List, [], ◌∷◌, if◌then◌else◌, Text, codes, text_eq}
use pyupload_x.Base.Int.{ℤ, pos}
use pyupload_x.Ranges.Number.{int_of}
use pyupload_x.Config.{Settings}
use pyupload_x.Lifecycle.Policy.{ServerDefault}
use pyupload_x.Db.Rows.{StoredDefault}
use pyupload_x.Db.{Db}

-- `get_many` on one key
unfoldable pub get_setting : Text → List (Text × Text) → Option Text
get_setting key [] = none
get_setting key ((k, v) ∷ rest) = if text_eq k key then some v else get_setting key rest

abbrev pub or_fallback : Option ℤ → ℕ → ℤ
or_fallback none fallback = pos fallback
or_fallback (some z) fallback = z

abbrev pub int_override : Option Text → ℕ → ℤ
int_override none fallback = pos fallback
int_override (some raw) fallback = or_fallback (int_of raw) fallback

abbrev pub text_override : Option Text → Text → Text
text_override none fallback = fallback
text_override (some []) fallback = fallback
text_override (some (c ∷ s)) fallback = c ∷ s

module _ (settings : Settings) (db : Db) where
  unfoldable pub get_presign_default_seconds : ℤ
  unfolding get_setting
  get_presign_default_seconds =
      int_override (get_setting (codes "storage.presign.default_expires_seconds") db.settings)
        settings.presign.default_expires_seconds

  unfoldable pub get_max_file_size : ℤ
  unfolding get_setting
  get_max_file_size =
      int_override (get_setting (codes "uploads.maximum_file_size_bytes") db.settings)
        settings.uploads.maximum_bytes

  unfoldable pub get_direct_threshold : ℤ
  unfolding get_setting
  get_direct_threshold =
      int_override (get_setting (codes "uploads.direct_upload_threshold_bytes") db.settings)
        settings.uploads.direct_upload_threshold_bytes

  unfoldable pub get_default_mode : Text
  unfolding get_setting
  get_default_mode =
      text_override (get_setting (codes "uploads.default_mode") db.settings)
        settings.uploads.default_mode

  unfoldable pub get_default_part_size : ℤ
  unfolding get_setting
  get_default_part_size =
      int_override (get_setting (codes "uploads.multipart.default_part_size_bytes") db.settings)
        settings.uploads.multipart.default_part_size_bytes

  unfoldable pub get_session_expiry : ℤ
  unfolding get_setting
  get_session_expiry =
      int_override (get_setting (codes "uploads.session.expires_after_seconds") db.settings)
        settings.uploads.session.expires_after_seconds

-- The value under a key of the override's JSON text, or that of the base where the key is missing.
abbrev pub under_key {ℓ} : {A : Type ℓ} → Option (Option A) → Option A → Option A
under_key none base = base
under_key (some value) base = value

-- `base.update(…)` with the keys that the override has
abbrev pub overridden : ServerDefault → Option StoredDefault → ServerDefault
overridden base none = base
overridden base (some o) = record {
  mode = under_key o.mode base.mode;
  action = under_key o.action base.action;
  ttl_seconds = under_key o.ttl_seconds base.ttl_seconds;
}

unfoldable pub get_lifecycle_default : Settings → Db → ServerDefault
get_lifecycle_default settings db =
    overridden settings.lifecycle.default_policy db.lifecycle_override
