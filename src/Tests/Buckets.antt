-- ===== src/Tests/Buckets.antt =====
-- Buckets of two tenants at the local backend, and what the service shows them.
use pyupload_x.Base.{◌≡◌, refl, [], ◌∷◌, Text, codes, text_eq, contains_text}
use pyupload_x.Errors.{ok, err, bucket_already_exists, bucket_not_found, invalid_bucket_name}
use pyupload_x.Storage.{Bytes}
use pyupload_x.Storage.FileSystem.{Disk}
use pyupload_x.Storage.Local.{local_storage}
use pyupload_x.Storage.Local.Paths.{LocalStorageConfig}
use pyupload_x.Storage.Local.Keys.{IsResolved}
use pyupload_x.Storage.Local.Buckets.Kept.{local_storage-BucketLaws}
use pyupload_x.Request.{World, Identity, App, route}
use pyupload_x.Db.Uploads.{Dialect}
use pyupload_x.Buckets.{is_bucket_allowed}
use pyupload_x.Buckets.Names.{validate_name}
use pyupload_x.Buckets.Service.{create_bucket, delete_bucket, list_buckets_for_tenant}
use pyupload_x.Buckets.Listing.{IsAscending, list_buckets-allowed}
use pyupload_x.Buckets.Owned.{done, creating, deleting, IsOwned, Run-IsOwned}
use pyupload_x.Uploads.Sound.Runs.{empty_db}
use pyupload_x.Tests.Samples.{settings, who}

abbrev config : LocalStorageConfig
config = record { root_path = codes "o" ∷ []; multipart_path = codes "m" ∷ [] }

abbrev digest : Bytes → Text
digest b = b

abbrev at_local : App Disk
at_local = record {
  storage = local_storage config digest;
  settings = settings;
  dialect = Dialect.postgresql;
  nfc = λ s. s;
}

abbrev other : Identity
other = record { tenant_id = codes "u"; principal_id = codes "q" }

abbrev opened : World Disk
opened = record { db = empty_db; store = record { nodes = []; faults = [] }; now = 1 }

-- one tenant has made a bucket
abbrev made : World Disk
made = (route (create_bucket at_local who (codes " docs")) opened).1

name_refused : validate_name (codes "a..b") ≡ err invalid_bucket_name
unfolding validate_name
name_refused = refl

made_once : (create_bucket at_local who (codes " docs") opened).0 ≡ ok (codes "docs")
unfolding create_bucket local_storage
made_once = refl

taken : (create_bucket at_local other (codes "docs") made).0 ≡ err bucket_already_exists
unfolding create_bucket local_storage
taken = refl

not_theirs : (delete_bucket at_local other (codes "docs") made).0 ≡ err bucket_not_found
unfolding create_bucket delete_bucket local_storage
not_theirs = refl

shown : list_buckets_for_tenant settings made.db (codes "t") ≡ codes "b" ∷ codes "docs" ∷ []
unfolding create_bucket local_storage list_buckets_for_tenant
shown = refl

list_buckets-allowed_example :
    IsAscending (list_buckets_for_tenant settings made.db (codes "t"))
    × (contains_text (codes "docs") (list_buckets_for_tenant settings made.db (codes "t"))
        ≡ is_bucket_allowed settings made.db (codes "t") (codes "docs"))
list_buckets-allowed_example = list_buckets-allowed settings made.db (codes "t") (codes "docs")

abbrev after_all : World Disk
after_all =
    (route (delete_bucket at_local who (codes "docs"))
      (route (create_bucket at_local other (codes "docs")) made).1).1

root-IsResolved : IsResolved config.root_path
unfolding text_eq
root-IsResolved = (refl, tt)

Run-IsOwned_example : IsOwned at_local after_all
Run-IsOwned_example =
    Run-IsOwned at_local (local_storage-BucketLaws config digest root-IsResolved) tt (
      creating who (codes " docs")
        (creating other (codes "docs") (deleting who (codes "docs") done)))
