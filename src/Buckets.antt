-- ===== src/Buckets.antt =====
-- app/services/bucket_service.py: which buckets a tenant may use. The children make, show and delete
-- them.
pub mod Names
pub mod Service
pub mod Listing
pub mod Owned
use pyupload_x.Base.{
  Bool, true, false, ◌&&◌, Option, none, some, if◌then◌else◌, find, Text, text_eq, contains_text,
}
use pyupload_x.Config.{Settings}
use pyupload_x.Db.Rows.{StorageBucket}
use pyupload_x.Db.{Db}

abbrev pub is_bucket : Text → Text → StorageBucket → Bool
is_bucket tenant name b = text_eq b.tenant_id tenant && text_eq b.name name

-- bucket_repository.get_by_name
unfoldable pub get_by_name : Db → Text → Text → Option StorageBucket
get_by_name db tenant name = find (is_bucket tenant name) db.buckets

abbrev pub is_some {ℓ} : {A : Type ℓ} → Option A → Bool
is_some none = false
is_some (some a) = true

unfoldable pub is_bucket_allowed : Settings → Db → Text → Text → Bool
unfolding get_by_name
is_bucket_allowed settings db tenant bucket =
    if contains_text bucket settings.storage.allowed_buckets
    then true
    else is_some (get_by_name db tenant bucket)
