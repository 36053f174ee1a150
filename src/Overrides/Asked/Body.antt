-- ===== src/Overrides/Asked/Body.antt =====
-- `update` of app/services/setting_service.py: what a body asks for, as one change of what is in force.
use pyupload_x.Base.{◌+◌, ◌≡◌, Bool, true, Option, none, some, leb, length, Text}
use pyupload_x.Base.Int.{ℤ, pos_part, neg_part}
use pyupload_x.Errors.{Result, ok, err}
use pyupload_x.Lifecycle.Policy.{ServerDefault, or_else}
use pyupload_x.Ranges.Number.{strip, decimal, max_digits}
use pyupload_x.Overrides.Values.{Value, null, text, int_field}
use pyupload_x.Overrides.Effective.{EffectiveSettings}
use pyupload_x.Overrides.Update.{StorageBody, UploadsBody, PolicyBody}

-- What is in force for a value of the body: the value, or what was there where it is null.
abbrev pub or_before : Result ℤ → ℤ → ℤ
or_before (err e) before = before
or_before (ok z) before = z

abbrev pub asked_number : Value → ℤ → ℤ
asked_number null before = before
asked_number v before = or_before (int_field v) before

abbrev pub asked_if_given : Option Value → ℤ → ℤ
asked_if_given none before = before
asked_if_given (some v) before = or_before (int_field v) before

abbrev pub asked_bucket : Value → Text → Text
asked_bucket (text s) before = strip s
asked_bucket _ before = before

abbrev pub asked_mode : Value → Text → Text
asked_mode (text s) before = s
asked_mode _ before = before

abbrev pub result_value : Result ℤ → Option ℤ
result_value (err e) = none
result_value (ok z) = some z

abbrev pub asked_ttl : Value → Option ℤ
asked_ttl null = none
asked_ttl v = result_value (int_field v)

abbrev pub asked_storage : Option StorageBody → EffectiveSettings → EffectiveSettings
asked_storage none e = e
asked_storage (some b) e = record e {
  default_bucket = asked_bucket b.default_bucket e.default_bucket;
  presign_default_expires_seconds =
      asked_number b.presign_default_expires_seconds e.presign_default_expires_seconds;
}

abbrev pub asked_uploads : Option UploadsBody → EffectiveSettings → EffectiveSettings
asked_uploads none e = e
asked_uploads (some b) e = record e {
  maximum_file_size_bytes = asked_number b.maximum_file_size_bytes e.maximum_file_size_bytes;
  direct_upload_threshold_bytes =
      asked_number b.direct_upload_threshold_bytes e.direct_upload_threshold_bytes;
  default_mode = asked_mode b.default_mode e.default_mode;
  default_part_size_bytes = asked_if_given b.default_part_size_bytes e.default_part_size_bytes;
  expires_after_seconds = asked_if_given b.expires_after_seconds e.expires_after_seconds;
}

abbrev pub asked_policy : PolicyBody → ServerDefault → ServerDefault
asked_policy p d = record {
  mode = or_else p.mode d.mode;
  action = or_else p.action d.action;
  ttl_seconds = or_else (asked_ttl p.ttl_seconds) d.ttl_seconds;
}

abbrev pub asked_lifecycle : Option (Option PolicyBody) → EffectiveSettings → EffectiveSettings
asked_lifecycle (some (some p)) e = record e { default_policy = asked_policy p e.default_policy }
asked_lifecycle _ e = e

-- no more digits than `int` reads, which the reader of JSON has seen to
abbrev pub is_short : Result ℤ → Bool
is_short (err e) = true
is_short (ok z) = leb (length (decimal (pos_part z + neg_part z))) max_digits

abbrev pub is_short_if_given : Option Value → Bool
is_short_if_given none = true
is_short_if_given (some v) = is_short (int_field v)

abbrev pub StorageIsShort : Option StorageBody → Type 0
StorageIsShort none = Unit
StorageIsShort (some b) = is_short (int_field b.presign_default_expires_seconds) ≡ true

abbrev pub UploadsIsShort : Option UploadsBody → Type 0
UploadsIsShort none = Unit
UploadsIsShort (some b) =
    (is_short (int_field b.maximum_file_size_bytes) ≡ true)
    × (is_short (int_field b.direct_upload_threshold_bytes) ≡ true)
    × (is_short_if_given b.default_part_size_bytes ≡ true)
    × (is_short_if_given b.expires_after_seconds ≡ true)
