-- ===== src/Buckets/Owned.antt =====
-- app/services/bucket_service.py: the rows of all tenants beside the buckets of the backend, over
-- requests that make and delete buckets.
use pyupload_x.Base.{
  ◌+◌, ◌≡◌, refl, sym, ap, subst, inl, inr, true, false, none, some, arith, Bool-cases,
  Option-cases, Text, text_eq, text_eq→eq, contains_text,
}
pub mod Rows
use Rows.{
  IsBucketName, validate_name-IsBucketName, AreOwned, AreOwned-mono, AreOwned-append, new-AreApart,
  found-IsOther, AreOwned-select, name_of,
}
use pyupload_x.Errors.{Error, Result, ok, err, Result-cases}
use pyupload_x.Db.Rows.{StorageBucket}
use pyupload_x.Storage.{StorageAdapter}
use pyupload_x.Request.{
  World, Identity, pure, ◌>>◌, App, Action, route, settle, continue, modify_db,
}
use pyupload_x.Buckets.{is_bucket, is_some, get_by_name}
use pyupload_x.Buckets.Names.{matches_bucket_name, has_two_dots, validate_name}
use pyupload_x.Buckets.Service.{
  create, enter, create_named, create_bucket, delete, delete_found, delete_named, delete_bucket,
}
use pyupload_x.Buckets.Listing.{text_eq_comm}

-- What the service asks of a backend: making a bucket makes it and takes none away, deleting one takes
-- no other away, and a refused deletion takes none away.
pub record BucketLaws {S : Type 0} (storage : StorageAdapter S) : Type 0 where
  pub create_keeps :
      (n m : Text) (s : S)
      → IsBucketName n
      → IsBucketName m
      → storage.bucket_exists m s ≡ true
      → storage.bucket_exists m (storage.create_bucket n s).1 ≡ true
  pub create_makes :
      (n : Text) (s : S) (u : Unit {0})
      → IsBucketName n
      → (storage.create_bucket n s).0 ≡ ok u
      → storage.bucket_exists n (storage.create_bucket n s).1 ≡ true
  pub delete_keeps :
      (n m : Text) (s : S)
      → IsBucketName n
      → IsBucketName m
      → text_eq m n ≡ false
      → storage.bucket_exists m s ≡ true
      → storage.bucket_exists m (storage.delete_bucket n s).1 ≡ true
  pub refused_keeps :
      (n : Text) (s : S) (e : Error)
      → IsBucketName n
      → (storage.delete_bucket n s).0 ≡ err e
      → storage.bucket_exists n s ≡ true
      → storage.bucket_exists n (storage.delete_bucket n s).1 ≡ true

module _ {S : Type 0} (app : App S) where
  abbrev pub IsOwned : World S → Type 0
  IsOwned w = AreOwned (λ name. app.storage.bucket_exists name w.store) w.db.next_id w.db.buckets

  -- The requests of tenants that make and delete buckets, one after another.
  pub data Run : World S → World S → Type 0 where
    done : {w : World S} → Run w w
    creating :
        {w v : World S} (identity : Identity) (name : Text)
        → Run (route (create_bucket app identity name) w).1 v
        → Run w v
    deleting :
        {w v : World S} (identity : Identity) (name : Text)
        → Run (route (delete_bucket app identity name) w).1 v
        → Run w v

module _ {S : Type 0} (app : App S) (laws : BucketLaws app.storage) where
  module _ (identity : Identity) (w : World S) (owned : IsOwned app w) where
    created-IsOwned :
        (name : Text) (r : Result (Unit {0})) (s : S)
        → IsBucketName name
        → app.storage.bucket_exists name w.store ≡ false
        → get_by_name w.db identity.tenant_id name ≡ none
        → app.storage.create_bucket name w.store ≡ (r, s)
        → let p = continue r (λ u. enter app identity name) (record w { store = s }) in
          IsOwned app (settle w.db p.0 p.1).1
    unfolding enter create
    created-IsOwned name (err e) s named new none' h =
        AreOwned-mono _ _ w.db.next_id w.db.next_id w.db.buckets (omega arith)
          (λ m ok' there.
            subst (λ (q : Result (Unit {0}) × S). app.storage.bucket_exists m q.1 ≡ true) h
              (laws.create_keeps name m w.store named ok' there))
          owned
    created-IsOwned name (ok u) s named new none' h =
        let row : StorageBucket = record {
          id = w.db.next_id;
          tenant_id = identity.tenant_id;
          name = name;
          created_by = identity.principal_id;
        } in
        let exists = λ (m : Text). app.storage.bucket_exists m s in
        let kept =
          λ (m : Text) (ok' : IsBucketName m) (there : app.storage.bucket_exists m w.store ≡ true).
            subst (λ (q : Result (Unit {0}) × S). app.storage.bucket_exists m q.1 ≡ true) h
              (laws.create_keeps name m w.store named ok' there) in
        rw none' (
          AreOwned-append exists (w.db.next_id + 1) row w.db.buckets
            (AreOwned-mono _ exists w.db.next_id (w.db.next_id + 1) w.db.buckets (omega arith) kept
              owned)
            (new-AreApart (λ m. app.storage.bucket_exists m w.store) w.db.next_id row w.db.buckets
              owned (omega arith) new)
            (omega arith) named
            (subst (λ (q : Result (Unit {0}) × S). app.storage.bucket_exists name q.1 ≡ true) h
              (laws.create_makes name w.store u named (ap (λ q. q.0) h))))

    create_named-IsOwned :
        (name : Text)
        → IsBucketName name
        → IsOwned app
            (settle w.db
              (create_named app identity name w).0
              (create_named app identity name w).1).1
    unfolding create_named
    create_named-IsOwned name named = elim (Bool-cases (app.storage.bucket_exists name w.store)) [
      | inl e ↦ rw e owned
      | inr e ↦ elim (Option-cases (get_by_name w.db identity.tenant_id name)) [
        | inr (b, f) ↦ rw (e, f) owned
        | inl f ↦
            rw (e, f)
              (created-IsOwned name (app.storage.create_bucket name w.store).0
                (app.storage.create_bucket name w.store).1 named e f refl)
      ]
    ]

    deleted-IsOwned :
        (name : Text) (b : StorageBucket) (r : Result (Unit {0})) (s : S)
        → IsBucketName name
        → app.storage.bucket_exists name w.store ≡ true
        → get_by_name w.db identity.tenant_id name ≡ some b
        → app.storage.delete_bucket name w.store ≡ (r, s)
        → let answered : Action S (Unit {0}) = λ v. (r, record v { store = s }) in
          let p = (answered >> modify_db (delete b) >> pure name) w in
          IsOwned app (settle w.db p.0 p.1).1
    unfolding get_by_name delete
    deleted-IsOwned name b (err e) s named there found h =
        AreOwned-mono _ _ w.db.next_id w.db.next_id w.db.buckets (omega arith)
          (λ m ok' there'. elim (Bool-cases (text_eq m name)) [
            | inl same ↦
                subst (λ (k : Text). app.storage.bucket_exists k s ≡ true)
                  (sym (text_eq→eq m name same))
                  (subst (λ (q : Result (Unit {0}) × S). app.storage.bucket_exists name q.1 ≡ true)
                    h (laws.refused_keeps name w.store e named (ap (λ q. q.0) h) there))
            | inr other ↦
                subst (λ (q : Result (Unit {0}) × S). app.storage.bucket_exists m q.1 ≡ true) h
                  (laws.delete_keeps name m w.store named ok' other there')
          ])
          owned
    deleted-IsOwned name b (ok u) s named there found h =
        let exists = λ (m : Text). app.storage.bucket_exists m w.store in
        let others =
          found-IsOther exists w.db.next_id (is_bucket identity.tenant_id name) w.db.buckets b owned
            found in
        let its = name_of identity.tenant_id name b w.db.buckets found in
        AreOwned-select exists (λ m. app.storage.bucket_exists m s) w.db.next_id b w.db.buckets
          owned others
          (λ m ok' other there'.
            subst (λ (q : Result (Unit {0}) × S). app.storage.bucket_exists m q.1 ≡ true) h
              (laws.delete_keeps name m w.store named ok'
                (subst (λ (k : Text). text_eq m k ≡ false) its other) there'))

    delete_named-IsOwned :
        (name : Text)
        → IsBucketName name
        → IsOwned app
            (settle w.db
              (delete_named app identity name w).0
              (delete_named app identity name w).1).1
    unfolding delete_named delete_found
    delete_named-IsOwned name named =
        elim (Bool-cases (contains_text name app.settings.storage.allowed_buckets)) [
          | inl e ↦ rw e owned
          | inr e ↦ elim (Option-cases (get_by_name w.db identity.tenant_id name)) [
            | inl f ↦ rw (e, f) owned
            | inr (b, f) ↦ elim (Bool-cases (app.storage.bucket_exists name w.store)) [
              | inr g ↦ rw (e, f, g) owned
              | inl g ↦
                  rw (e, f, g)
                    (deleted-IsOwned name b (app.storage.delete_bucket name w.store).0
                      (app.storage.delete_bucket name w.store).1 named g f refl)
            ]
          ]
        ]

    pub create_bucket-IsOwned :
        (name : Text) → IsOwned app (route (create_bucket app identity name) w).1
    unfolding create_bucket
    create_bucket-IsOwned name = elim (Result-cases (validate_name name)) [
      | inl (name', e) ↦ rw e (create_named-IsOwned name' (validate_name-IsBucketName name name' e))
      | inr (e', e) ↦ rw e owned
    ]

    pub delete_bucket-IsOwned :
        (name : Text) → IsOwned app (route (delete_bucket app identity name) w).1
    unfolding delete_bucket
    delete_bucket-IsOwned name = elim (Result-cases (validate_name name)) [
      | inl (name', e) ↦ rw e (delete_named-IsOwned name' (validate_name-IsBucketName name name' e))
      | inr (e', e) ↦ rw e owned
    ]

  -- At a backend that keeps the laws, each row of the buckets table keeps a valid name that no other
  -- row of any tenant has, and its bucket stays at the backend, over requests of any tenants that
  -- make and delete buckets, refused ones included.
  pub Run-IsOwned : {w v : World S} → IsOwned app w → Run app w v → IsOwned app v
  Run-IsOwned owned done = owned
  Run-IsOwned {w} owned (creating identity name run) =
      Run-IsOwned (create_bucket-IsOwned identity w owned name) run
  Run-IsOwned {w} owned (deleting identity name run) =
      Run-IsOwned (delete_bucket-IsOwned identity w owned name) run
