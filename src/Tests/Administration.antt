-- ===== src/Tests/Administration.antt =====
-- Updates of the settings at run time, on the small configuration.
use pyupload_x.Base.{◌≡◌, refl, ap, true, none, some, List, [], ◌∷◌, Text, codes, text_eq}
use pyupload_x.Base.Int.{pos}
use pyupload_x.Errors.{ok, err, exception, PyException}
use pyupload_x.Lifecycle.Mode.{Mode, LifecycleAction, contains_mode, contains_action}
use pyupload_x.Ranges.Number.{decimal}
use pyupload_x.Overrides.Values.{null, whole, text, infinite, int_field}
use pyupload_x.Overrides.Effective.{EffectiveSettings, get_effective}
use pyupload_x.Overrides.Update.{SettingsBody, update}
use pyupload_x.Overrides.Stored.{
  NumberSetting, presign, max_file_size, direct_threshold, part_size, session_expiry, configured,
  is_allowed,
}
use pyupload_x.Overrides.Bounds.Steps.{IsWithin}
use pyupload_x.Overrides.Bounds.{update-IsWithin}
use pyupload_x.Overrides.Asked.{update-asked}
use pyupload_x.Overrides.Asked.Body.{
  asked_storage, asked_uploads, asked_lifecycle, StorageIsShort, UploadsIsShort,
}
use pyupload_x.Tests.Samples.{settings, start}

-- A new default bucket and part size, and a default policy that keeps files.
abbrev body : SettingsBody
body = record {
  storage = some (record {
    default_bucket = text (codes " mine ");
    presign_default_expires_seconds = text (codes "1_20");
  });
  uploads = some (record {
    maximum_file_size_bytes = null;
    direct_upload_threshold_bytes = null;
    default_mode = text (codes "automatic");
    default_part_size_bytes = some (whole (pos 8));
    expires_after_seconds = none;
  });
  lifecycle =
      some (some (record { mode = some Mode.permanent; action = none; ttl_seconds = null }));
}

abbrev buckets : List Text
buckets = codes "b" ∷ codes "mine" ∷ []

abbrev updated : EffectiveSettings
updated = record (get_effective settings start.db) {
  default_bucket = codes "mine";
  presign_default_expires_seconds = pos 120;
  default_mode = codes "automatic";
  default_part_size_bytes = pos 8;
  default_policy = record {
    mode = some Mode.permanent;
    action = some LifecycleAction.delete;
    ttl_seconds = some (pos 10);
  };
}

returned : (update settings buckets (some body) start).0 ≡ ok updated
unfolding update
returned = refl

not_caught :
    (update settings buckets
      (some (record {
        storage =
            some (record { default_bucket = null; presign_default_expires_seconds = infinite });
        uploads = none;
        lifecycle = none;
      }))
      start).0
    ≡ err (exception PyException.overflow_error)
unfolding update
not_caught = refl

configured-IsAllowed :
    (n : NumberSetting) → is_allowed settings n (pos (configured settings n)) ≡ true
configured-IsAllowed presign = refl
configured-IsAllowed max_file_size = refl
configured-IsAllowed direct_threshold = refl
configured-IsAllowed part_size = refl
configured-IsAllowed session_expiry = refl

start-IsWithin : IsWithin settings (get_effective settings start.db)
unfolding get_effective text_eq contains_mode contains_action
start-IsWithin = (refl, refl, refl, refl, refl, refl, refl, refl, refl)

update-IsWithin_example :
    IsWithin settings (get_effective settings (update settings buckets (some body) start).1.db)
update-IsWithin_example =
    update-IsWithin settings configured-IsAllowed buckets (some body) start start-IsWithin

update-asked_example :
    (updated ≡ get_effective settings (update settings buckets (some body) start).1.db)
    × (updated
        ≡ asked_lifecycle body.lifecycle (
            asked_uploads body.uploads
              (asked_storage body.storage (get_effective settings start.db))))
unfolding int_field decimal
update-asked_example =
    update-asked settings buckets body start (update settings buckets (some body) start).1 updated
      presign_short uploads_short (ran)
  where
    presign_short : StorageIsShort body.storage
    presign_short = refl

    uploads_short : UploadsIsShort body.uploads
    uploads_short = (refl, refl, refl, refl)

    ran :
        update settings buckets (some body) start
        ≡ (ok updated, (update settings buckets (some body) start).1)
    ran = ap (λ r. (r, (update settings buckets (some body) start).1)) returned
