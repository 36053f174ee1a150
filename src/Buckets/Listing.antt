-- ===== src/Buckets/Listing.antt =====
-- app/services/bucket_service.py: the list of a tenant's buckets beside the test of one.
use pyupload_x.Base.{
  ◌≡◌, refl, ap, true, false, ◌||◌, List, [], ◌∷◌, ◌++◌, map, arith, select, find, Text, text_eq,
  text_eq_iff, contains_text,
}
use pyupload_x.Config.{Settings}
use pyupload_x.Db.{Db}
use pyupload_x.Db.Rows.{StorageBucket}
use pyupload_x.Buckets.{is_bucket, is_some, get_by_name, is_bucket_allowed}
use pyupload_x.Buckets.Service.{
  text_le, with_name, sorted_set, insert_by_name, ordered_by_name, list_for_tenant,
  list_buckets_for_tenant,
}

pub text_eq_comm : (s t : Text) → text_eq s t ≡ text_eq t s
text_eq_comm s t = ground (arith, text_eq_iff s t, text_eq_iff t s)

contains-with_name :
    (x s : Text) (ts : List Text)
    → contains_text x (with_name s ts) ≡ (text_eq x s || contains_text x ts)
unfolding with_name
contains-with_name x s [] = refl
contains-with_name x s (t ∷ ts) =
    ground (arith, contains-with_name x s ts, text_eq_iff s t, text_eq_iff x s, text_eq_iff x t)

contains-sorted_set :
    (x : Text) (ss : List Text) → contains_text x (sorted_set ss) ≡ contains_text x ss
unfolding sorted_set
contains-sorted_set x [] = refl
contains-sorted_set x (s ∷ ss) =
    ground (arith, contains-with_name x s (sorted_set ss), contains-sorted_set x ss)

contains-append :
    (x : Text) (ss ts : List Text)
    → contains_text x (ss ++ ts) ≡ (contains_text x ss || contains_text x ts)
contains-append x [] ts = refl
contains-append x (s ∷ ss) ts = ground (arith, contains-append x ss ts)

abbrev names : List StorageBucket → List Text
names [] = []
names (b ∷ bs) = b.name ∷ names bs

names-map : (bs : List StorageBucket) → map (λ (b : StorageBucket). b.name) bs ≡ names bs
names-map [] = refl
names-map (b ∷ bs) = ap (λ r. b.name ∷ r) (names-map bs)

contains-insert :
    (x : Text) (b : StorageBucket) (cs : List StorageBucket)
    → contains_text x (names (insert_by_name b cs))
      ≡ (text_eq x b.name || contains_text x (names cs))
unfolding insert_by_name
contains-insert x b [] = refl
contains-insert x b (c ∷ cs) = ground (arith, contains-insert x b cs)

contains-ordered :
    (x : Text) (bs : List StorageBucket)
    → contains_text x (names (ordered_by_name bs)) ≡ contains_text x (names bs)
unfolding ordered_by_name
contains-ordered x [] = refl
contains-ordered x (b ∷ bs) =
    ground (arith, contains-insert x b (ordered_by_name bs), contains-ordered x bs)

contains-select :
    (tenant x : Text) (bs : List StorageBucket)
    → contains_text x (names (select (λ b. text_eq b.tenant_id tenant) bs))
      ≡ is_some (find (is_bucket tenant x) bs)
contains-select tenant x [] = refl
contains-select tenant x (b ∷ bs) =
    ground (arith, contains-select tenant x bs, text_eq_comm x b.name)

-- One text before the other: no text is before itself, and of two the one or the other is.
text_le_total : (s t : Text) → text_le s t ≡ false → text_le t s ≡ true
unfolding text_le
text_le_total [] t h = cc
text_le_total (c ∷ s) [] h = refl
text_le_total (c ∷ s) (d ∷ t) h = ground (arith, text_le_total s t)

abbrev pub IsBefore : Text → Text → Type 0
IsBefore s t = (text_le s t ≡ true) × (text_eq s t ≡ false)

abbrev pub IsAscending : List Text → Type 0
IsAscending [] = Unit
IsAscending (s ∷ []) = Unit
IsAscending (s ∷ t ∷ ts) = IsBefore s t × IsAscending (t ∷ ts)

with_name-IsAscending : (s : Text) (ts : List Text) → IsAscending ts → IsAscending (with_name s ts)
unfolding with_name
with_name-IsAscending s [] h = tt
with_name-IsAscending s (t ∷ []) h = ground (arith, text_le_total s t, text_eq_comm s t)
with_name-IsAscending s (t ∷ u ∷ ts) h = ground (
  arith,
  text_le_total s t,
  text_eq_comm s t,
  text_eq_comm s u,
  h,
  text_le_total s u,
  with_name-IsAscending s (u ∷ ts),
)

sorted_set-IsAscending : (ss : List Text) → IsAscending (sorted_set ss)
unfolding sorted_set
sorted_set-IsAscending [] = tt
sorted_set-IsAscending (s ∷ ss) =
    with_name-IsAscending s (sorted_set ss) (sorted_set-IsAscending ss)

-- The list that a tenant is shown is in ascending order with no name twice, and has exactly the
-- buckets that the tenant may use.
pub list_buckets-allowed :
    (settings : Settings) (db : Db) (tenant name : Text)
    → IsAscending (list_buckets_for_tenant settings db tenant)
      × (contains_text name (list_buckets_for_tenant settings db tenant)
          ≡ is_bucket_allowed settings db tenant name)
unfolding list_buckets_for_tenant is_bucket_allowed get_by_name list_for_tenant
list_buckets-allowed settings db tenant name =
    let rows = select (λ (b : StorageBucket). text_eq b.tenant_id tenant) db.buckets in
    let allowed = settings.storage.allowed_buckets in
    (
      sorted_set-IsAscending
          (map (λ (b : StorageBucket). b.name) (ordered_by_name rows) ++ allowed),
      rw
          (
            names-map (ordered_by_name rows),
            contains-sorted_set name (names (ordered_by_name rows) ++ allowed),
          )
          (ground (
            arith,
            contains-append name (names (ordered_by_name rows)) allowed,
            contains-ordered name rows,
            contains-select tenant name db.buckets,
          )),
    )
