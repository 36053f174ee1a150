-- ===== src/Uploads/Plan.antt =====
-- The checks of `create_session` in app/services/upload_service.py, in the order of the source. `math.ceil(total_size / part_size)` is the exact
-- quotient rounded up; the source divides floats, which agree below 2^53 bytes.
use pyupload_x.Base.{
  ℕ, ◌+◌, ◌-◌, ◌/◌, max, Bool, not, ◌&&◌, Option, none, some, [], ◌∷◌, ltb, ◌==◌, if◌then◌else◌,
  Text, codes, text_eq,
}
use pyupload_x.Base.Int.{ℤ, pos, pos_part, leb_ℤ, ltb_ℤ}
use pyupload_x.Errors.{
  ◌>>=◌, ◌>>◌, raise_if, Result, ok, err, invalid_bucket, invalid_file_size, file_too_large,
  invalid_part_size, too_many_parts, invalid_upload_mode, storage_capability_not_supported,
  object_already_exists, exception, PyException,
}
use pyupload_x.Config.{Settings, MultipartConfig}
use pyupload_x.Paths.{normalize_relative_path}
use pyupload_x.Lifecycle.Mode.{Time}
use pyupload_x.Lifecycle.Policy.{Requested, Effective, compute_effective_lifecycle}
use pyupload_x.Db.Rows.{UploadMode}
use pyupload_x.Db.{Db}
use pyupload_x.Buckets.{is_bucket_allowed}
use pyupload_x.Request.Settings.{
  get_max_file_size, get_default_part_size, get_default_mode, get_direct_threshold,
  get_lifecycle_default,
}
use pyupload_x.Request.{World, Identity, App}

-- the arguments of `create_session`
pub record NewUpload : Type 0 where
  pub bucket : Text
  pub object_key : Text
  pub original_filename : Text
  pub content_type : Option Text
  pub total_size : ℤ
  pub part_size : Option ℤ
  pub upload_mode : Text
  pub file_fingerprint : Option Text
  pub expected_sha256 : Option Text
  pub lifecycle : Option Requested

abbrev pub ceil_div : ℕ → ℕ → ℕ
ceil_div a b = (a + b - 1) / b

-- The two size checks.
unfoldable pub checked_size : ℤ → ℤ → Result ℕ
checked_size maximum total =
    if ltb_ℤ total (pos 0)
    then err invalid_file_size
    else if ltb_ℤ maximum total
    then err (file_too_large maximum)
    else ok (pos_part total)

-- The size and the number of the parts.
unfoldable pub part_geometry : MultipartConfig → ℕ → ℤ → Result (ℕ × ℕ)
part_geometry m total part_size =
    if leb_ℤ (pos m.minimum_part_size_bytes) part_size
      && leb_ℤ part_size (pos m.maximum_part_size_bytes)
    then (if pos_part part_size == 0
        then err (exception PyException.zero_division)
        else (let parts = max 1 (ceil_div total (pos_part part_size)) in
            if ltb m.maximum_parts parts
            then err too_many_parts
            else ok (pos_part part_size, parts)))
    else err (invalid_part_size part_size m.minimum_part_size_bytes m.maximum_part_size_bytes)

abbrev pub or_default : Text → Text → Text
or_default [] d = d
or_default (c ∷ s) d = c ∷ s

-- `has_multipart` is `storage.capabilities.multipart`
unfoldable pub choose_mode : MultipartConfig → Bool → ℤ → ℕ → Text → Result UploadMode
choose_mode m has_multipart threshold total mode_value =
    if text_eq mode_value (codes "automatic")
    then ok (
        if m.enabled && ltb_ℤ threshold (pos total) then UploadMode.presigned else UploadMode.proxy)
    else if text_eq mode_value (codes "proxy")
    then ok UploadMode.proxy
    else if text_eq mode_value (codes "presigned")
    then (if not has_multipart && ltb 0 total
        then err (storage_capability_not_supported (codes "multipart"))
        else ok UploadMode.presigned)
    else err invalid_upload_mode

abbrev pub some_ok : Result Effective → Result (Option Effective)
some_ok (ok e) = ok (some e)
some_ok (err e) = err e

-- `completed_at` is given where a file is complete already
unfoldable pub effective_lifecycle :
    Settings → Db → Option Requested → Option Time → Time → Result (Option Effective)
effective_lifecycle settings db requested completed_at now =
    if settings.lifecycle.enabled
    then some_ok (
        compute_effective_lifecycle settings.lifecycle.policy (get_lifecycle_default settings db)
          requested completed_at now)
    else ok none

-- What a session is made of, once all checks have passed.
pub record Plan : Type 0 where
  pub key : Text
  pub total_size : ℕ
  pub part_size : ℕ
  pub total_parts : ℕ
  pub mode : UploadMode
  pub effective : Option Effective

abbrev pub given_or : Option ℤ → ℤ → ℤ
given_or none d = d
given_or (some z) d = z

module _ {S : Type 0} (app : App S) where
  unfoldable pub refuse_existing : Text → Text → S → Result (Unit {0})
  refuse_existing bucket key store =
      raise_if
        (text_eq app.settings.uploads.object_conflict_policy (codes "reject")
          && app.storage.object_exists bucket key store)
        (object_already_exists bucket key)

  unfoldable pub plan : Identity → NewUpload → World S → Result Plan
  unfolding checked_size part_geometry choose_mode refuse_existing effective_lifecycle
  plan identity r w =
      let settings = app.settings in
      let multipart = settings.uploads.multipart in
      do
        raise_if (not (is_bucket_allowed settings w.db identity.tenant_id r.bucket)) invalid_bucket
        key ← normalize_relative_path app.nfc 64 1024 r.object_key
        total ← checked_size (get_max_file_size settings w.db) r.total_size
        (part_size, total_parts) ←
            part_geometry multipart total
              (given_or r.part_size (get_default_part_size settings w.db))
        mode ←
            choose_mode multipart app.storage.capabilities.multipart
              (get_direct_threshold settings w.db) total
              (or_default r.upload_mode (get_default_mode settings w.db))
        refuse_existing r.bucket key w.store
        effective ← effective_lifecycle settings w.db r.lifecycle none w.now
        ok (record {
          key = key;
          total_size = total;
          part_size = part_size;
          total_parts = total_parts;
          mode = mode;
          effective = effective;
        })
