-- ===== src/Storage/Local/Multipart/Joined.antt =====
-- `complete_multipart_upload` of app/storage/local.py: what it leaves on every outcome.
use mathlib.Core.Path.{fun_ext}
use pyupload_x.Base.{
  ℕ, ◌≡◌, refl, sym, subst, ◌∙◌, ◌≢◌, ◌⊎◌, inl, inr, Bool, true, false, Option, none, some, List,
  [], ◌∷◌, ◌++◌, map, arith, if◌then◌else◌, Bool-cases, Option-cases, length, Text,
}
use pyupload_x.Errors.{Error, PyException, Result, ok, err, exception}
use pyupload_x.Storage.{Bytes, StoredObject, StoredPart}
use pyupload_x.Storage.FileSystem.{
  FilePath, path_eq, is_under, parent, Nodes, file_at, Disk, without_tree, make_dirs, write_file,
  replace,
}
use pyupload_x.Storage.FileSystem.Laws.{path_eq_refl, make_dirs-file_at}
use pyupload_x.Storage.FileSystem.Writes.{
  View, view, file_at-without_tree, write_file-false, replace-write_file,
}
use pyupload_x.Storage.Local.Paths.{
  LocalStorageConfig, temporary, at_path, object_path, parts_dir, upload_dir,
}
use pyupload_x.Storage.Local.Listing.{sorted_parts, join_files}
use pyupload_x.Storage.Local.Objects.Outcome.{all_of-eq, temporary-ne}
use pyupload_x.Storage.Local.Multipart.{join_at, finally_removed, complete_multipart_upload, all_of}
use pyupload_x.Storage.Local.Multipart.Names.{part_path}

abbrev pub stored_numbers : List StoredPart → List ℕ
stored_numbers ps = map (λ p. p.part_number) ps

-- The bytes of the files of some parts, one after the other, if none is missing.
unfoldable pub joined : View → FilePath → List ℕ → Option Bytes
joined v dir [] = some []
joined v dir (n ∷ ns) = elim (v (part_path dir n)) [
  | none ↦ none
  | some b ↦ elim (joined v dir ns) [ none ↦ none | some rest ↦ some (b ++ rest) ]
]

abbrev pub joined_as : Bytes × Bool → Option Bytes
joined_as (b, true) = some b
joined_as (b, false) = none

joined_as-true : (x : Bytes × Bool) → x.1 ≡ true → joined_as x ≡ some x.0
joined_as-true (b, true) h = refl
joined_as-true (b, false) h = cc

join_files-joined :
    (dir : FilePath) (ps : List StoredPart) (d : Disk)
    → joined_as (join_files dir ps d.nodes) ≡ joined (view d) dir (stored_numbers ps)
unfolding join_files joined
join_files-joined dir [] d = refl
join_files-joined dir (p ∷ ps) d =
    join_one (file_at (part_path dir p.part_number) d.nodes) (join_files dir ps d.nodes)
      (joined (view d) dir (stored_numbers ps)) (join_files-joined dir ps d)
  where
    join_one :
        (o : Option Bytes) (found : Bytes × Bool) (rest : Option Bytes)
        → joined_as found ≡ rest
        → joined_as (elim o [ none ↦ ([], false) | some b ↦ (all_of b ++ found.0, found.1) ])
          ≡ elim o [ none ↦ none | some b ↦ elim rest [ none ↦ none | some c ↦ some (b ++ c) ] ]
    join_one none found rest h = refl
    join_one (some b) (c, true) rest h = rw (← h, all_of-eq b) refl
    join_one (some b) (c, false) rest h = rw (← h) refl

-- The files after a completion whose parts were below `up` and whose object is at `p`.
abbrev pub SameOutside : FilePath → FilePath → View → View → Type 0
SameOutside up p before after =
    (q : FilePath)
    → is_under up q ≡ false
    → path_eq p q ≡ false
    → path_eq (temporary p) q ≡ false
    → after q ≡ before q

abbrev pub IsCleared : FilePath → View → Type 0
IsCleared up after = (q : FilePath) → is_under up q ≡ true → after q ≡ none

-- The outcomes of a completion.
abbrev pub Joins :
    (Bytes → Text) → FilePath → FilePath → Option Bytes → View → Result StoredObject × Disk → Type 0
Joins sha256 up p content before (ok o, d) =
    (content ≡ view d p)
    × (view d p ≢ none)
    × ((b : Bytes) → content ≡ some b → (o.size_bytes ≡ length b) × (o.etag ≡ some (sha256 b)))
    × IsCleared up (view d)
    × SameOutside up p before (view d)
Joins sha256 up p content before (err e, d) =
    (view d p ≡ before p)
    × (((q : FilePath) → view d q ≡ before q) ⊎ IsCleared up (view d))
    × SameOutside up p before (view d)

module _ (sha256 : Bytes → Text) (bucket object_key : Text) (p dir up : FilePath)
    (parts : List StoredPart) (named : p ≢ []) (apart : is_under up p ≡ false) where
  failed :
      (before : View) (content : Option Bytes) (e : Error) (d : Disk)
      → ((q : FilePath) → path_eq (temporary p) q ≡ false → view d q ≡ before q)
      → Joins sha256 up p content before (finally_removed up (err e, d))
  failed before content e d h = (
    ground (arith, file_at-without_tree up p d.nodes, h p (temporary-ne p named)),
    inr (λ q u. ground (arith, file_at-without_tree up q d.nodes)),
    λ q u a b. ground (arith, file_at-without_tree up q d.nodes, h q b),
  )

  -- a file that was put in its place, once the parts are removed
  placed :
      (b : Bytes) (content : Option Bytes) (before : View) (d : Disk)
      → ((q : FilePath)
          → view d q
            ≡ (if path_eq p q then some b else if path_eq (temporary p) q then none else before q))
      → content ≡ some b
      → Joins sha256 up p content before (
          finally_removed up (
            ok (record {
              bucket = bucket;
              object_key = object_key;
              size_bytes = length b;
              etag = some (sha256 b);
            }),
            d,
          ))
  placed b content before d h whole =
      let there : file_at p (without_tree up d.nodes) ≡ some b =
        ground (arith, file_at-without_tree up p d.nodes, h p, path_eq_refl p) in
      (
        whole ∙ sym there,
        λ z. cc,
        λ c e. let same : b ≡ c = ground arith in rw same (refl, refl),
        λ q u. ground (arith, file_at-without_tree up q d.nodes),
        λ q u x y. ground (arith, file_at-without_tree up q d.nodes, h q),
      )

  join_at-Joins :
      (d : Disk)
      → Joins sha256 up p
          (joined (view d) dir (stored_numbers (sorted_parts parts)))
          (view d)
          (finally_removed up (join_at sha256 bucket object_key p dir parts d))
  unfolding join_at
  join_at-Joins d =
      let (b, present) = join_files dir (sorted_parts parts) d.nodes in
      let content = joined (view d) dir (stored_numbers (sorted_parts parts)) in
      let w = write_file (temporary p) b d in
      let same : (q : FilePath) → path_eq (temporary p) q ≡ false → view w.1 q ≡ view d q =
        write_file-false (temporary p) b d in
      elim (Bool-cases w.0) [
        | inr e ↦ rw (e, Joins) (failed (view d) content (exception PyException.os_error) w.1 same)
        | inl e ↦ elim (Bool-cases present) [
          | inr f ↦
              rw (e, f, Joins)
                (failed (view d) content (exception PyException.file_not_found) w.1 same)
          | inl f ↦ elim (Option-cases (replace (temporary p) p w.1.nodes)) [
            | inl r ↦
                rw (e, f, r, Joins)
                  (failed (view d) content (exception PyException.os_error) w.1 same)
            | inr (m, r) ↦
                rw (e, f, r, Joins)
                  (placed b content (view d) (record w.1 { nodes = m })
                    (λ q. replace-write_file (temporary p) p q b d m e r)
                    (sym (join_files-joined dir (sorted_parts parts) d)
                      ∙ joined_as-true (join_files dir (sorted_parts parts) d.nodes) f))
          ]
        ]
      ]

module _ (config : LocalStorageConfig) (sha256 : Bytes → Text) (bucket object_key upload_id : Text)
    (parts : List StoredPart) (p dir up : FilePath) (d : Disk)
    (found : object_path config bucket object_key ≡ ok p)
    (found_dir : parts_dir config upload_id ≡ ok dir)
    (found_up : upload_dir config upload_id ≡ ok up) where
  pub complete-none :
      make_dirs [] (parent p) d.nodes ≡ none
      → complete_multipart_upload config sha256 bucket object_key upload_id parts d
        ≡ (err (exception PyException.os_error), d)
  unfolding complete_multipart_upload
  complete-none e = rw (found, at_path, e) refl

  pub complete-some :
      (m : Nodes)
      → make_dirs [] (parent p) d.nodes ≡ some m
      → complete_multipart_upload config sha256 bucket object_key upload_id parts d
        ≡ finally_removed up (join_at sha256 bucket object_key p dir parts (record d { nodes = m }))
  unfolding complete_multipart_upload
  complete-some m e = rw (found, at_path, e, found_dir, at_path, found_up, at_path) refl

  -- What a call of `complete_multipart_upload` leaves, for an object that is not kept among the parts.
  -- If it returns, the object is the files of the parts in the order of their numbers, with its size
  -- and digest, and the upload's directory is gone. If it raises, the object is as before, and either
  -- nothing changed or the directory is gone all the same: the parts are lost. Nothing else
  -- changes but the temporary file.
  pub complete-Joins :
      p ≢ []
      → is_under up p ≡ false
      → Joins sha256 up p
          (joined (view d) dir (stored_numbers (sorted_parts parts)))
          (view d)
          (complete_multipart_upload config sha256 bucket object_key upload_id parts d)
  complete-Joins named apart = elim (Option-cases (make_dirs [] (parent p) d.nodes)) [
    | inl e ↦ rw (complete-none e) (refl, inl (λ q. refl), λ q a b c. refl)
    | inr (m, e) ↦ rw (complete-some m e) (
        subst
          (λ (v : View). Joins sha256 up p (joined v dir (stored_numbers (sorted_parts parts))) v (
            finally_removed up
              (join_at sha256 bucket object_key p dir parts (record d { nodes = m }))))
          (fun_ext λ q. make_dirs-file_at [] (parent p) q d.nodes m e)
          (join_at-Joins sha256 bucket object_key p dir up parts named apart
            (record d { nodes = m })))
  ]
