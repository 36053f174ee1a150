-- ===== src/Storage/Local/Multipart/Parts.antt =====
-- `upload_part` of app/storage/local.py: what it leaves on every outcome.
use mathlib.Core.Path.{fun_ext}
use pyupload_x.Base.{
  ℕ, ◌≡◌, refl, sym, ap, subst, ◌∙◌, ◌⊎◌, inl, inr, false, none, some, [], ◌∷◌, ◌++◌, arith, ◌==◌,
  ==_iff, Bool-cases, Option-cases, length, Text,
}
use pyupload_x.Base.Int.{pos}
use pyupload_x.Errors.{PyException, Result, ok, err, exception}
use pyupload_x.Storage.{Bytes, StoredPart}
use pyupload_x.Storage.FileSystem.{
  FilePath, path_eq, Nodes, file_at, is_dir, Disk, make_dirs, write_file, unlink,
}
use pyupload_x.Storage.FileSystem.Laws.{path_eq_refl, make_dirs-file_at}
use pyupload_x.Storage.FileSystem.Writes.{
  View, view, file_at-without, write_file-true, write_file-false, unlink-some,
}
use pyupload_x.Storage.Local.Paths.{
  LocalStorageConfig, at_path, give_up, all_of, parts_dir, part_name,
}
use pyupload_x.Storage.Local.Objects.Outcome.{all_of-eq}
use pyupload_x.Storage.Local.Multipart.{upload_at, upload_part}

-- Nothing else changes than the file at a path.
abbrev pub SameButAt : FilePath → View → View → Type 0
SameButAt p before after = (q : FilePath) → path_eq p q ≡ false → after q ≡ before q

-- The row that a part is given back as.
abbrev pub stored_part : (Bytes → Text) → ℕ → Bytes → StoredPart
stored_part sha256 n b = record {
  part_number = n;
  etag = sha256 b;
  size_bytes = pos (length b);
  checksum_sha256 = some (sha256 b);
}

-- The outcomes of a call that uploads a part to a path.
abbrev pub Uploads :
    (Bytes → Text) → ℕ → Bytes → ℕ → FilePath → View → Result StoredPart × Disk → Type 0
Uploads sha256 n stream size path before (ok part, d) =
    (view d path ≡ some stream)
    × (part ≡ stored_part sha256 n stream)
    × (length stream ≡ size)
    × SameButAt path before (view d)
Uploads sha256 n stream size path before (err e, d) =
    ((view d path ≡ none) ⊎ (view d path ≡ before path)) × SameButAt path before (view d)

unlink-none : (p : FilePath) (nodes : Nodes) → unlink p nodes ≡ none → file_at p nodes ≡ none
unfolding unlink is_dir file_at
unlink-none p nodes h = ground arith

module _ (sha256 : Bytes → Text) (n : ℕ) (stream : Bytes) (size : ℕ) (path : FilePath) where
  given_up :
      (before : View) (d : Disk)
      → SameButAt path before (view d)
      → Uploads sha256 n stream size path before (give_up path d)
  unfolding give_up
  given_up before d k = elim (Option-cases (unlink path d.nodes)) [
    | inl e ↦ rw (e, give_up, Uploads) (inl (unlink-none path d.nodes e), k)
    | inr (m, e) ↦
        rw (e, give_up, Uploads)
          (
            inl (ground (arith, unlink-some path path d.nodes m, path_eq_refl path)),
            λ q a. ground (arith, unlink-some path q d.nodes m, k q),
          )
  ]

  upload_at-Uploads :
      (d : Disk)
      → Uploads sha256 n stream size path (view d) (upload_at sha256 n stream size path d)
  unfolding upload_at
  upload_at-Uploads d =
      let w = write_file path (all_of stream) d in
      let same : SameButAt path (view d) (view w.1) = write_file-false path (all_of stream) d in
      elim (Bool-cases w.0) [
        | inr e ↦ rw (e, Uploads) (given_up (view d) w.1 same)
        | inl e ↦ elim (Bool-cases (length (all_of stream) == size)) [
          | inr s ↦
              rw (e, s, Uploads)
                (
                  inl (ground (arith, file_at-without path path w.1.nodes, path_eq_refl path)),
                  λ q a. ground (arith, file_at-without path q w.1.nodes, same q),
                )
          | inl s ↦
              rw (e, s, Uploads)
                (
                  write_file-true path (all_of stream) d path e
                      ∙ rw (path_eq_refl path, all_of-eq stream) refl,
                  rw (all_of-eq stream) refl,
                  ap length (sym (all_of-eq stream)) ∙ (==_iff (length (all_of stream)) size).0 s,
                  same,
                )
        ]
      ]

module _ (config : LocalStorageConfig) (sha256 : Bytes → Text) (upload_id : Text) (n : ℕ)
    (stream : Bytes) (size : ℕ) (dir : FilePath) (d : Disk)
    (found : parts_dir config upload_id ≡ ok dir) where
  pub upload_part-none :
      make_dirs [] dir d.nodes ≡ none
      → upload_part config sha256 upload_id n stream size d
        ≡ (err (exception PyException.os_error), d)
  unfolding upload_part
  upload_part-none e = rw (found, at_path, e) refl

  pub upload_part-some :
      (m : Nodes)
      → make_dirs [] dir d.nodes ≡ some m
      → upload_part config sha256 upload_id n stream size d
        ≡ upload_at sha256 n stream size (dir ++ part_name n ∷ []) (record d { nodes = m })
  unfolding upload_part
  upload_part-some m e = rw (found, at_path, e) refl

  -- What a call of `upload_part` leaves. If it returns, the file of the part holds the stream, which
  -- is as long as was said, and the part is given back with its size and digest. If it raises, the
  -- file of the part is as before, or gone: a part that was there is lost when it is sent again and
  -- that fails. No other file changes.
  pub upload_part-Uploads :
      Uploads sha256 n stream size
        (dir ++ part_name n ∷ [])
        (view d)
        (upload_part config sha256 upload_id n stream size d)
  upload_part-Uploads = elim (Option-cases (make_dirs [] dir d.nodes)) [
    | inl e ↦ rw (upload_part-none e) (inr refl, λ q a. refl)
    | inr (m, e) ↦ rw (upload_part-some m e) (
        subst
          (λ (v : View).
            Uploads sha256 n stream size (dir ++ part_name n ∷ []) v
              (upload_at sha256 n stream size (dir ++ part_name n ∷ []) (record d { nodes = m })))
          (fun_ext λ q. make_dirs-file_at [] dir q d.nodes m e)
          (upload_at-Uploads sha256 n stream size (dir ++ part_name n ∷ [])
            (record d { nodes = m })))
  ]
