-- ===== src/Overrides/Stored.antt =====
-- app/services/setting_service.py: a setting that was stored is read back.
use pyupload_x.Base.{
  ℕ, suc, ◌+◌, ◌≤◌, ◌≡◌, refl, ap, ◌∙◌, Bool, true, false, none, some, List, [], ◌∷◌, arith, leb,
  if◌then◌else◌, length, Text, text_eq, text_eq_iff, contains_text,
}
use pyupload_x.Base.Int.{ℤ, pos, negsuc, pos_part, neg_part}
use pyupload_x.Config.{Settings}
use pyupload_x.Db.{Db}
use pyupload_x.Ranges.Number.{unsigned, negated, decimal, int_of, max_digits}
use pyupload_x.Ranges.Decimal.{digits-decimal, int_of-digits, int_of-minus, digits_from-decimal}
use pyupload_x.Request.Settings.{
  get_setting, text_override, int_override, get_presign_default_seconds, get_max_file_size,
  get_direct_threshold, get_default_mode, get_default_part_size, get_session_expiry,
  get_lifecycle_default,
}
use pyupload_x.Overrides.Values.{str_of, set_setting}
use pyupload_x.Overrides.Effective.{
  EffectiveSettings, get_effective, get_default_bucket, presign_key, default_mode_key,
  default_bucket_key, max_file_size_key, direct_threshold_key, default_part_size_key,
  session_expiry_key,
}
use pyupload_x.Overrides.Update.{
  is_blank, default_modes, min_session_seconds, with_setting, within, min_presign_seconds,
  is_positive, is_natural,
}

-- as many digits as `int` reads
abbrev pub IsReadable : ℤ → Type 0
IsReadable z = length (decimal (pos_part z + neg_part z)) ≤ max_digits

-- An integer that was written is read as itself, or it is too long to be read at all.
pub int_of-str_of :
    (z : ℤ)
    → int_of (str_of z)
      ≡ (if leb (length (decimal (pos_part z + neg_part z))) max_digits then some z else none)
unfolding str_of
int_of-str_of (pos n) =
    int_of-digits (decimal n) (digits-decimal n)
    ∙ ap unsigned (digits_from-decimal n)
    ∙ ground arith
int_of-str_of (negsuc n) =
    int_of-minus (decimal (suc n)) (digits-decimal (suc n))
    ∙ ap negated (digits_from-decimal (suc n))
    ∙ ground arith

pub get-set_setting :
    (k key v : Text) (rows : List (Text × Text))
    → get_setting k (set_setting key v rows)
      ≡ (if text_eq key k then some v else get_setting k rows)
unfolding get_setting set_setting
get-set_setting k key v [] = refl
get-set_setting k key v ((j, u) ∷ rest) =
    ground
      (arith, get-set_setting k key v rest, text_eq_iff j key, text_eq_iff j k, text_eq_iff key k)

-- The settings that are numbers, each with its row, its value in the configuration and its limits.
pub data NumberSetting : Type 0 where
  presign max_file_size direct_threshold part_size session_expiry : NumberSetting

abbrev pub key_of : NumberSetting → Text
key_of presign = presign_key
key_of max_file_size = max_file_size_key
key_of direct_threshold = direct_threshold_key
key_of part_size = default_part_size_key
key_of session_expiry = session_expiry_key

abbrev pub configured : Settings → NumberSetting → ℕ
configured settings presign = settings.presign.default_expires_seconds
configured settings max_file_size = settings.uploads.maximum_bytes
configured settings direct_threshold = settings.uploads.direct_upload_threshold_bytes
configured settings part_size = settings.uploads.multipart.default_part_size_bytes
configured settings session_expiry = settings.uploads.session.expires_after_seconds

abbrev pub is_allowed : Settings → NumberSetting → ℤ → Bool
is_allowed settings presign = within min_presign_seconds settings.presign.maximum_expires_seconds
is_allowed settings max_file_size = is_positive
is_allowed settings direct_threshold = is_natural
is_allowed settings part_size =
    within settings.uploads.multipart.minimum_part_size_bytes
      settings.uploads.multipart.maximum_part_size_bytes
is_allowed settings session_expiry =
    within min_session_seconds settings.uploads.session.maximum_lifetime_seconds

abbrev pub number_at : NumberSetting → EffectiveSettings → ℤ
number_at presign e = e.presign_default_expires_seconds
number_at max_file_size e = e.maximum_file_size_bytes
number_at direct_threshold e = e.direct_upload_threshold_bytes
number_at part_size e = e.default_part_size_bytes
number_at session_expiry e = e.expires_after_seconds

abbrev pub with_number : NumberSetting → ℤ → EffectiveSettings → EffectiveSettings
with_number presign z e = record e { presign_default_expires_seconds = z }
with_number max_file_size z e = record e { maximum_file_size_bytes = z }
with_number direct_threshold z e = record e { direct_upload_threshold_bytes = z }
with_number part_size z e = record e { default_part_size_bytes = z }
with_number session_expiry z e = record e { expires_after_seconds = z }

pub text_override-mode :
    (s fallback : Text) → contains_text s default_modes ≡ true → text_override (some s) fallback ≡ s
unfolding text_eq
text_override-mode [] fallback h = cc
text_override-mode (c ∷ s) fallback h = refl

pub text_override-solid :
    (s fallback : Text) → is_blank s ≡ false → text_override (some s) fallback ≡ s
text_override-solid [] fallback h = cc
text_override-solid (c ∷ s) fallback h = refl

module _ (settings : Settings) (db : Db) (v : Text) where
  -- A row that is written shows at its own setting, and at no other.
  pub get_effective-number :
      (n : NumberSetting)
      → get_effective settings (with_setting (key_of n) v db)
        ≡ with_number n (int_override (some v) (configured settings n)) (get_effective settings db)
  unfolding get_effective text_eq get_default_bucket get_presign_default_seconds get_max_file_size
      get_direct_threshold get_default_mode get_default_part_size get_session_expiry
      get_lifecycle_default
  get_effective-number presign = simp get-set_setting
  get_effective-number max_file_size = simp get-set_setting
  get_effective-number direct_threshold = simp get-set_setting
  get_effective-number part_size = simp get-set_setting
  get_effective-number session_expiry = simp get-set_setting

  pub get_effective-bucket :
      get_effective settings (with_setting default_bucket_key v db)
      ≡ record (get_effective settings db) {
        default_bucket = text_override (some v) settings.storage.default_bucket;
      }
  unfolding get_effective text_eq get_default_bucket get_presign_default_seconds get_max_file_size
      get_direct_threshold get_default_mode get_default_part_size get_session_expiry
      get_lifecycle_default
  get_effective-bucket = simp get-set_setting

  pub get_effective-mode :
      get_effective settings (with_setting default_mode_key v db)
      ≡ record (get_effective settings db) {
        default_mode = text_override (some v) settings.uploads.default_mode;
      }
  unfolding get_effective text_eq get_default_bucket get_presign_default_seconds get_max_file_size
      get_direct_threshold get_default_mode get_default_part_size get_session_expiry
      get_lifecycle_default
  get_effective-mode = simp get-set_setting
