-- ===== src/Storage/Local/Buckets/Kept.antt =====
-- app/storage/local.py: what the bucket service asks of a backend, at the local one.
use pyupload_x.Base.{
  ◌≡◌, refl, sym, ◌∙◌, inl, inr, true, false, ◌&&◌, [], ◌∷◌, ◌++◌, arith, leb, Bool-cases,
  Option-cases, length, all, contains, Text, text_eq, text_eq_refl,
}
use pyupload_x.Errors.{ok, err, Error}
use pyupload_x.Storage.{Bytes}
use pyupload_x.Paths.{is_skipped, is_parent}
use pyupload_x.Storage.FileSystem.{
  FilePath, Nodes, is_under, node_at, without_tree, is_dir, Disk, make_dirs, is_some,
}
use pyupload_x.Storage.FileSystem.Laws.{node_at-without_tree, make_dirs-is_dir}
use pyupload_x.Storage.Local.{local_storage}
use pyupload_x.Storage.Local.Paths.{LocalStorageConfig}
use pyupload_x.Storage.Local.Keys.{IsName, IsResolved, safe_join-names}
use pyupload_x.Storage.Local.Buckets.{
  bucket_path, create_bucket, bucket_exists, delete_bucket, has_file_under,
}
use pyupload_x.Buckets.Names.{is_name_char, first_is_alnum}
use pyupload_x.Buckets.Listing.{text_eq_comm}
use pyupload_x.Buckets.Owned.{BucketLaws}
use pyupload_x.Buckets.Owned.Rows.{IsBucketName}

name_chars-solid : (s : Text) → all is_name_char s ≡ true → contains b'/' s ≡ false
name_chars-solid [] h = refl
name_chars-solid (c ∷ s) h = ground (arith, name_chars-solid s)

-- A valid bucket name is one segment that names something.
pub IsBucketName-IsName : (s : Text) → IsBucketName s → IsName s
unfolding text_eq
IsBucketName-IsName s h =
    (name_chars-solid s (ground arith), skipped s (ground arith), parental s (ground arith))
  where
    skipped : (t : Text) → (leb 3 (length t) && first_is_alnum t) ≡ true → is_skipped t ≡ false
    skipped [] h = cc
    skipped (c ∷ t) h = ground arith

    parental : (t : Text) → (leb 3 (length t) && first_is_alnum t) ≡ true → is_parent t ≡ false
    parental [] h = cc
    parental (c ∷ t) h = ground arith

is_under-prefix : (root p q : FilePath) → is_under (root ++ p) (root ++ q) ≡ is_under p q
unfolding is_under
is_under-prefix [] p q = refl
is_under-prefix (r ∷ root) p q = rw (text_eq_refl r) (is_under-prefix root p q)

module _ (config : LocalStorageConfig) (sha256 : Bytes → Text)
    (root : IsResolved config.root_path) where
  path_of : (s : Text) → IsBucketName s → bucket_path config s ≡ ok (config.root_path ++ s ∷ [])
  unfolding bucket_path
  path_of s h = safe_join-names config.root_path (s ∷ []) root (IsBucketName-IsName s h, tt)

  exists_at :
      (s : Text) (d : Disk)
      → IsBucketName s
      → bucket_exists config s d ≡ is_dir (config.root_path ++ s ∷ []) d.nodes
  unfolding bucket_exists
  exists_at s d h = rw (path_of s h) refl

  at_dir : Text → FilePath
  at_dir s = config.root_path ++ s ∷ []

  create_keeps_lem :
      (n m : Text) (d : Disk)
      → IsBucketName n
      → IsBucketName m
      → bucket_exists config m d ≡ true
      → bucket_exists config m (create_bucket config n d).1 ≡ true
  unfolding create_bucket at_dir
  create_keeps_lem n m d h k e =
      let was : is_dir (at_dir m) d.nodes ≡ true = sym (exists_at m d k) ∙ e in
      exists_at m (create_bucket config n d).1 k
      ∙ rw (path_of n h) (elim (Bool-cases (is_some (node_at (at_dir n) d.nodes))) [
        | inl there ↦ rw there was
        | inr new ↦ elim (Option-cases (make_dirs [] (at_dir n) d.nodes)) [
          | inl f ↦ rw (new, f) was
          | inr (nodes, f) ↦
              rw (new, f) ((make_dirs-is_dir [] (at_dir n) (at_dir m) d.nodes nodes f).0 was)
        ]
      ])

  create_makes_lem :
      (n : Text) (d : Disk) (u : Unit {0})
      → IsBucketName n
      → (create_bucket config n d).0 ≡ ok u
      → bucket_exists config n (create_bucket config n d).1 ≡ true
  unfolding create_bucket at_dir
  create_makes_lem n d u h e =
      exists_at n (create_bucket config n d).1 h
      ∙ elim (Bool-cases (is_some (node_at (at_dir n) d.nodes))) [
        | inl there ↦ absurd (ground (arith, path_of n h))
        | inr new ↦ elim (Option-cases (make_dirs [] (at_dir n) d.nodes)) [
          | inl f ↦ absurd (ground (arith, path_of n h))
          | inr (nodes, f) ↦
              rw (path_of n h, new, f)
                ((make_dirs-is_dir [] (at_dir n) (at_dir n) d.nodes nodes f).1)
        ]
      ]

  -- The tree of one bucket is removed, and another bucket's directory stays.
  removed-is_dir :
      (n m : Text) (nodes : Nodes)
      → text_eq m n ≡ false
      → is_dir (at_dir m) nodes ≡ true
      → is_dir (at_dir m) (without_tree (at_dir n) nodes) ≡ true
  unfolding at_dir is_dir is_under
  removed-is_dir n m nodes other was = ground (
    arith,
    node_at-without_tree (at_dir n) (at_dir m) nodes,
    is_under-prefix config.root_path (n ∷ []) (m ∷ []),
    text_eq_comm n m,
  )

  delete_keeps_lem :
      (n m : Text) (d : Disk)
      → IsBucketName n
      → IsBucketName m
      → text_eq m n ≡ false
      → bucket_exists config m d ≡ true
      → bucket_exists config m (delete_bucket config n d).1 ≡ true
  unfolding delete_bucket at_dir
  delete_keeps_lem n m d h k other e =
      let was : is_dir (at_dir m) d.nodes ≡ true = sym (exists_at m d k) ∙ e in
      exists_at m (delete_bucket config n d).1 k
      ∙ rw (path_of n h) (elim (Bool-cases (is_dir (at_dir n) d.nodes)) [
        | inr none' ↦ rw none' was
        | inl there ↦ elim (Bool-cases (has_file_under (at_dir n) d.nodes)) [
          | inl full ↦ rw (there, full) was
          | inr empty ↦ rw (there, empty) (removed-is_dir n m d.nodes other was)
        ]
      ])

  refused_keeps_lem :
      (n : Text) (d : Disk) (e : Error)
      → IsBucketName n
      → (delete_bucket config n d).0 ≡ err e
      → bucket_exists config n d ≡ true
      → bucket_exists config n (delete_bucket config n d).1 ≡ true
  unfolding delete_bucket at_dir
  refused_keeps_lem n d e h f was = elim (Bool-cases (is_dir (at_dir n) d.nodes)) [
    | inr none' ↦ absurd (ground (arith, path_of n h))
    | inl there ↦ elim (Bool-cases (has_file_under (at_dir n) d.nodes)) [
      | inl full ↦ exists_at n (delete_bucket config n d).1 h ∙ rw (path_of n h, there, full) there
      | inr empty ↦ absurd (ground (arith, path_of n h))
    ]
  ]

  -- The local backend keeps what the bucket service asks of one.
  pub local_storage-BucketLaws : BucketLaws (local_storage config sha256)
  unfolding local_storage
  local_storage-BucketLaws = record {
    create_keeps = create_keeps_lem;
    create_makes = create_makes_lem;
    delete_keeps = delete_keeps_lem;
    refused_keeps = refused_keeps_lem;
  }
