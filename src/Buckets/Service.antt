-- ===== src/Buckets/Service.antt =====
-- app/services/bucket_service.py and app/db/repositories/bucket_repository.py: a tenant makes, lists
-- and deletes buckets. Texts are ordered by their code points, also by `ORDER BY`.
use pyupload_x.Base.{
  ◌+◌, Bool, true, false, not, ◌&&◌, ◌||◌, List, [], ◌∷◌, ◌++◌, map, ltb, ◌==◌, if◌then◌else◌,
  select, Text, text_eq, contains_text,
}
use pyupload_x.Errors.{
  integrity_error, Result, ok, err, bucket_already_exists, bucket_not_deletable, bucket_not_found,
  exception,
}
use pyupload_x.Db.{Db}
use pyupload_x.Db.Rows.{StorageBucket}
use pyupload_x.Config.{Settings}
use pyupload_x.Request.{
  Identity, App, Action, pure, lift, gets, or_raise, call, ◌>>=◌, ◌>>◌, raise_when, modify_db,
}
use pyupload_x.Buckets.{is_some, get_by_name}
use pyupload_x.Buckets.Names.{validate_name}

-- `s <= t` on texts
unfoldable pub text_le : Text → Text → Bool
text_le [] t = true
text_le (c ∷ s) [] = false
text_le (c ∷ s) (d ∷ t) = ltb c d || ((c == d) && text_le s t)

-- One name more in a sorted list, that has each name once.
unfoldable pub with_name : Text → List Text → List Text
unfolding text_le text_eq
with_name s [] = s ∷ []
with_name s (t ∷ ts) =
    let rest = t ∷ with_name s ts in
    if text_eq s t then t ∷ ts else if text_le s t then s ∷ t ∷ ts else rest

-- `sorted(set(names))`
unfoldable pub sorted_set : List Text → List Text
unfolding with_name
sorted_set [] = []
sorted_set (s ∷ ss) = with_name s (sorted_set ss)

-- One row more among rows that are ordered by name.
unfoldable pub insert_by_name : StorageBucket → List StorageBucket → List StorageBucket
unfolding text_le
insert_by_name b [] = b ∷ []
insert_by_name b (c ∷ cs) =
    let rest = c ∷ insert_by_name b cs in if text_le b.name c.name then b ∷ c ∷ cs else rest

unfoldable pub ordered_by_name : List StorageBucket → List StorageBucket
unfolding insert_by_name
ordered_by_name [] = []
ordered_by_name (b ∷ bs) = insert_by_name b (ordered_by_name bs)

unfoldable pub list_for_tenant : Db → Text → List StorageBucket
unfolding ordered_by_name
list_for_tenant db tenant = ordered_by_name (select (λ b. text_eq b.tenant_id tenant) db.buckets)

-- `bucket_repository.create`; the table keeps the pairs of tenant and name unique
unfoldable pub create : Text → Text → Text → Db → Result (StorageBucket × Db)
unfolding get_by_name
create tenant name created_by db =
    let row : StorageBucket = record {
      id = db.next_id;
      tenant_id = tenant;
      name = name;
      created_by = created_by;
    } in
    if is_some (get_by_name db tenant name)
    then err (exception integrity_error)
    else ok (row, record db { buckets = db.buckets ++ row ∷ []; next_id = db.next_id + 1 })

unfoldable pub delete : StorageBucket → Db → Db
delete b db = record db { buckets = select (λ c. not (c.id == b.id)) db.buckets }

-- The names in the settings, and those of the tenant's rows.
unfoldable pub list_buckets_for_tenant : Settings → Db → Text → List Text
unfolding sorted_set list_for_tenant
list_buckets_for_tenant settings db tenant = sorted_set (
    map (λ (b : StorageBucket). b.name) (list_for_tenant db tenant)
    ++ settings.storage.allowed_buckets)

unfoldable pub list_managed_buckets_for_tenant : Db → Text → List Text
unfolding list_for_tenant
list_managed_buckets_for_tenant db tenant =
    map (λ (b : StorageBucket). b.name) (list_for_tenant db tenant)

-- The row that was entered, and the tables with it.
abbrev pub entered : {S : Type 0} → Result (StorageBucket × Db) → Action S Text
entered (err e) w = (err e, w)
entered (ok (b, db)) w = (ok b.name, record w { db = db })

module _ {S : Type 0} (app : App S) (identity : Identity) where
  -- `bucket_repository.create` in the session of the request; the time of making is not kept
  unfoldable pub enter : Text → Action S Text
  unfolding create
  enter name w = entered (create identity.tenant_id name identity.principal_id w.db) w

  -- `create_bucket` once the name is valid
  unfoldable pub create_named : Text → Action S Text
  unfolding get_by_name enter
  create_named name = gets (λ w. app.storage.bucket_exists name w.store) >>= λ exists.
      raise_when exists bucket_already_exists
      >> gets (λ w. is_some (get_by_name w.db identity.tenant_id name))
      >>= λ known.
          raise_when known bucket_already_exists
          >> call (app.storage.create_bucket name)
          >> enter name

  unfoldable pub create_bucket : Text → Action S Text
  unfolding validate_name create_named
  create_bucket name = lift (validate_name name) >>= λ name'. create_named name'

  -- `delete_bucket` once the row is found
  unfoldable pub delete_found : Text → StorageBucket → Action S Text
  unfolding delete
  delete_found name b = gets (λ w. app.storage.bucket_exists name w.store) >>= λ exists.
      raise_when (not exists) bucket_not_found
      >> call (app.storage.delete_bucket name)
      >> modify_db (delete b)
      >> pure name

  unfoldable pub delete_named : Text → Action S Text
  unfolding get_by_name delete_found
  delete_named name =
      raise_when (contains_text name app.settings.storage.allowed_buckets) bucket_not_deletable
      >> gets (λ w. get_by_name w.db identity.tenant_id name)
      >>= λ found. or_raise found bucket_not_found >>= λ b. delete_found name b

  unfoldable pub delete_bucket : Text → Action S Text
  unfolding validate_name delete_named
  delete_bucket name = lift (validate_name name) >>= λ name'. delete_named name'
