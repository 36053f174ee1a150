-- ===== src/Overrides/Update.antt =====
-- `update` of app/services/setting_service.py, and the route of app/api/v1/settings.py that calls it.
-- A mode or an action of the body that is no text is a text that is no member of its enumeration.
use pyupload_x.Base.{
  ℕ, Bool, true, false, not, ◌&&◌, ◌||◌, Option, none, some, List, [], ◌∷◌, if◌then◌else◌, Text,
  codes, text_eq, contains_text,
}
use pyupload_x.Base.Int.{ℤ, pos, leb_ℤ, ltb_ℤ}
use pyupload_x.Errors.{Result, ok, err, invalid_settings}
use pyupload_x.Lifecycle.Mode.{Mode, LifecycleAction, contains_mode, contains_action}
use pyupload_x.Lifecycle.Policy.{ServerDefault, or_else}
use pyupload_x.Config.{Settings}
use pyupload_x.Db.{Db}
use pyupload_x.Db.Rows.{StoredDefault}
use pyupload_x.Ranges.Number.{strip}
use pyupload_x.Request.{
  Identity, App, Action, pure, raise, lift, gets, ◌>>=◌, ◌>>◌, raise_when, modify_db,
}
use pyupload_x.Request.Settings.{get_lifecycle_default}
use pyupload_x.Buckets.{is_some}
use pyupload_x.Buckets.Service.{list_buckets_for_tenant}
use pyupload_x.Overrides.Effective.{
  EffectiveSettings, default_bucket_key, default_mode_key, default_part_size_key,
  direct_threshold_key, get_effective, max_file_size_key, presign_key, session_expiry_key,
}
use pyupload_x.Overrides.Values.{Value, null, text, int_field, str_of, set_setting}

-- A key that is missing is `null`, except below `multipart` and `session`, where the code tells the
-- two apart: there a key that is missing, or whose object is, is `none`.
pub record StorageBody : Type 0 where
  pub default_bucket : Value
  pub presign_default_expires_seconds : Value

pub record UploadsBody : Type 0 where
  pub maximum_file_size_bytes : Value
  pub direct_upload_threshold_bytes : Value
  pub default_mode : Value
  pub default_part_size_bytes : Option Value
  pub expires_after_seconds : Option Value

pub record PolicyBody : Type 0 where
  pub mode : Option Mode
  pub action : Option LifecycleAction
  pub ttl_seconds : Value

-- A group that is missing or no object is `none`; so is a default policy within its group.
pub record SettingsBody : Type 0 where
  pub storage : Option StorageBody
  pub uploads : Option UploadsBody
  pub lifecycle : Option (Option PolicyBody)

abbrev pub within : ℕ → ℕ → ℤ → Bool
within lo hi z = leb_ℤ (pos lo) z && leb_ℤ z (pos hi)

abbrev pub is_positive : ℤ → Bool
is_positive z = ltb_ℤ (pos 0) z

abbrev pub is_natural : ℤ → Bool
is_natural z = leb_ℤ (pos 0) z

abbrev pub with_setting : Text → Text → Db → Db
with_setting key value db = record db { settings = set_setting key value db.settings }

abbrev pub default_modes : List Text
default_modes = codes "automatic" ∷ codes "proxy" ∷ codes "presigned" ∷ []

abbrev pub is_blank : Text → Bool
is_blank [] = true
is_blank (c ∷ s) = false

module _ {S : Type 0} where
  unfoldable pub set_value : Text → Text → Action S Unit
  unfolding set_setting
  set_value key value = modify_db (with_setting key value)

  -- The steps that the numeric settings share: read, compare with the limits, store.
  unfoldable pub store_number : Text → (ℤ → Bool) → Value → Action S Unit
  unfolding int_field str_of set_value
  store_number key allowed value = lift (int_field value) >>= λ z.
      raise_when (not (allowed z)) invalid_settings >> set_value key (str_of z)

  -- `if value is not None`, and `if key in …`
  abbrev pub store_unless_null : Text → (ℤ → Bool) → Value → Action S Unit
  store_unless_null key allowed null = pure tt
  store_unless_null key allowed value = store_number key allowed value

  abbrev pub store_if_given : Text → (ℤ → Bool) → Option Value → Action S Unit
  store_if_given key allowed none = pure tt
  store_if_given key allowed (some value) = store_number key allowed value

  unfoldable pub store_mode : Value → Action S Unit
  unfolding set_value text_eq
  store_mode null = pure tt
  store_mode (text s) =
      raise_when (not (contains_text s default_modes)) invalid_settings
      >> set_value default_mode_key s
  store_mode _ = raise invalid_settings

  unfoldable pub store_bucket : List Text → Value → Action S Unit
  unfolding set_value strip text_eq
  store_bucket allowed_buckets null = pure tt
  store_bucket allowed_buckets (text s) =
      let name = strip s in
      raise_when (is_blank name || not (contains_text name allowed_buckets)) invalid_settings
      >> set_value default_bucket_key name
  store_bucket allowed_buckets _ = raise invalid_settings

abbrev pub mode_refused : Option Mode → List Mode → Bool
mode_refused none modes = false
mode_refused (some m) modes = not (contains_mode m modes)

abbrev pub action_refused : Option LifecycleAction → List LifecycleAction → Bool
action_refused none actions = false
action_refused (some a) actions = not (contains_action a actions)

abbrev pub ttl_within : ℕ → ℕ → Result ℤ → Result (Option ℤ)
ttl_within lo hi (err e) = err e
ttl_within lo hi (ok z) = if within lo hi z then ok (some z) else err invalid_settings

abbrev pub checked_ttl : ℕ → ℕ → Value → Result (Option ℤ)
checked_ttl lo hi null = ok none
checked_ttl lo hi value = ttl_within lo hi (int_field value)

-- `current.update(…)` with what is not null, and its JSON object
abbrev pub stored_default :
    ServerDefault → Option Mode → Option LifecycleAction → Option ℤ → StoredDefault
stored_default current mode action ttl = record {
  mode = some (or_else mode current.mode);
  action = some (or_else action current.action);
  ttl_seconds = some (or_else ttl current.ttl_seconds);
}

-- `MIN_PRESIGN_SECONDS` and `MIN_SESSION_SECONDS`
abbrev pub min_presign_seconds : ℕ
min_presign_seconds = 60

abbrev pub min_session_seconds : ℕ
min_session_seconds = 60

abbrev pub has_no_group : SettingsBody → Bool
has_no_group body = not (is_some body.storage || is_some body.uploads || is_some body.lifecycle)

module _ {S : Type 0} (settings : Settings) where
  unfoldable pub update_storage : List Text → StorageBody → Action S Unit
  unfolding store_bucket store_number
  update_storage allowed_buckets body =
      store_bucket allowed_buckets body.default_bucket
      >> store_unless_null presign_key
          (within min_presign_seconds settings.presign.maximum_expires_seconds)
          body.presign_default_expires_seconds

  unfoldable pub update_uploads : UploadsBody → Action S Unit
  unfolding store_mode store_number
  update_uploads body =
      store_unless_null max_file_size_key is_positive body.maximum_file_size_bytes
      >> store_unless_null direct_threshold_key is_natural body.direct_upload_threshold_bytes
      >> store_mode body.default_mode
      >> store_if_given default_part_size_key
          (within settings.uploads.multipart.minimum_part_size_bytes
            settings.uploads.multipart.maximum_part_size_bytes)
          body.default_part_size_bytes
      >> store_if_given session_expiry_key
          (within min_session_seconds settings.uploads.session.maximum_lifetime_seconds)
          body.expires_after_seconds

  unfoldable pub update_lifecycle : Option PolicyBody → Action S Unit
  unfolding contains_mode contains_action int_field get_lifecycle_default
  update_lifecycle none = raise invalid_settings
  update_lifecycle (some policy) =
      raise_when (mode_refused policy.mode settings.lifecycle.policy.allowed_modes) invalid_settings
      >> raise_when (action_refused policy.action settings.lifecycle.policy.allowed_actions)
          invalid_settings
      >> lift (
          checked_ttl settings.lifecycle.policy.minimum_ttl_seconds
            settings.lifecycle.policy.maximum_ttl_seconds policy.ttl_seconds)
      >>= λ ttl. modify_db λ db. record db {
        lifecycle_override =
            some (stored_default (get_lifecycle_default settings db) policy.mode policy.action ttl);
      }

  abbrev pub when_given : {A : Type 0} → Option A → (A → Action S Unit) → Action S Unit
  when_given none f = pure tt
  when_given (some a) f = f a

  -- The groups one after another; a body that is no object is `none`.
  unfoldable pub update : List Text → Option SettingsBody → Action S EffectiveSettings
  unfolding update_storage update_uploads update_lifecycle get_effective
  update allowed_buckets none = raise invalid_settings
  update allowed_buckets (some body) =
      raise_when (has_no_group body) invalid_settings
      >> when_given body.storage (update_storage allowed_buckets)
      >> when_given body.uploads update_uploads
      >> when_given body.lifecycle update_lifecycle
      >> gets (λ w. get_effective settings w.db)

-- The route: the buckets that the administrator's tenant is shown are those that may be the default.
unfoldable pub update_settings :
    {S : Type 0} → App S → Identity → SettingsBody → Action S EffectiveSettings
unfolding list_buckets_for_tenant update
update_settings app identity body =
    gets (λ w. list_buckets_for_tenant app.settings w.db identity.tenant_id) >>= λ allowed_buckets.
    update app.settings allowed_buckets (some body)
