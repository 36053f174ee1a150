-- ===== src/Storage/Local/Objects/Outcome.antt =====
-- `put_object` of app/storage/local.py: what it leaves on every outcome.
use mathlib.Core.Path.{fun_ext}
use pyupload_x.Base.{
  ℕ, suc, ◌≡◌, refl, sym, ap, subst, ◌∙◌, ◌≢◌, ◌⊎◌, inl, inr, true, false, Option, none, some, [],
  ◌∷◌, ◌++◌, arith, if◌then◌else◌, Bool-cases, Option-cases, length, length-append, Text, codes,
  text_eq, text_eq_refl, text_eq→eq,
}
use pyupload_x.Errors.{PyException, Result, ok, err, checksum_mismatch, exception}
use pyupload_x.Storage.{Bytes, StoredObject}
use pyupload_x.Storage.Chunks.{chunk_bytes, copied-all}
use pyupload_x.Storage.FileSystem.{
  FilePath, path_eq, parent, Nodes, file_at, Disk, make_dirs, write_file, replace, unlink,
}
use pyupload_x.Storage.FileSystem.Laws.{path_eq_refl, path_eq_iff, make_dirs-file_at}
use pyupload_x.Storage.FileSystem.Writes.{
  View, view, file_at-without, write_file-false, replace-write_file, unlink-some,
}
use pyupload_x.Storage.Local.Paths.{
  LocalStorageConfig, temporary, at_path, give_up, all_of, sum_differs, object_path,
}
use pyupload_x.Storage.Local.Objects.{checked_object, put_at, put_object}

pub all_of-eq : (stream : Bytes) → all_of stream ≡ stream
all_of-eq stream = copied-all chunk_bytes (suc (length stream)) stream (omega arith) (omega arith)

pub temporary-ne : (p : FilePath) → p ≢ [] → path_eq (temporary p) p ≡ false
unfolding temporary path_eq
temporary-ne [] h = absurd (h refl)
temporary-ne (s ∷ []) h = longer s
  where
    longer : (s : Text) → path_eq ((s ++ codes ".tmp") ∷ []) (s ∷ []) ≡ false
    longer s = elim (Bool-cases (text_eq (s ++ codes ".tmp") s)) [
      | inl e ↦ absurd (
          omega
            (arith, ap length (text_eq→eq (s ++ codes ".tmp") s e), length-append s (codes ".tmp")))
      | inr e ↦ ground arith
    ]
temporary-ne (s ∷ t ∷ p) h = ground (arith, temporary-ne (t ∷ p), text_eq_refl s)

-- Nothing else changes than the files at two paths.
abbrev pub SameBut : FilePath → View → View → Type 0
SameBut p before after =
    (q : FilePath) → path_eq p q ≡ false → path_eq (temporary p) q ≡ false → after q ≡ before q

-- The outcomes of a call that puts an object at a path.
abbrev pub Puts :
    (Bytes → Text) → Bytes → Option Text → FilePath → View → Result StoredObject × Disk → Type 0
Puts sha256 stream sum p before (ok o, d) =
    (view d p ≡ some stream)
    × (view d (temporary p) ≡ none)
    × (o.etag ≡ some (sha256 stream))
    × (sum_differs sum (sha256 stream) ≡ false)
    × SameBut p before (view d)
Puts sha256 stream sum p before (err e, d) =
    (((e ≡ checksum_mismatch) × (sum_differs sum (sha256 stream) ≡ true) × (view d p ≡ none))
      ⊎ (view d p ≡ before p))
    × SameBut p before (view d)

module _ (sha256 : Bytes → Text) (bucket object_key : Text) (size : Option ℕ) (sum : Option Text)
    (stream : Bytes) (p : FilePath) (named : p ≢ []) where
  give_up-Puts :
      (before : View) (d : Disk)
      → (view d p ≡ before p)
      → SameBut p before (view d)
      → Puts sha256 stream sum p before (give_up (temporary p) d)
  unfolding give_up
  give_up-Puts before d h k = elim (Option-cases (unlink (temporary p) d.nodes)) [
    | inl e ↦ rw (e, give_up, Puts) (inr h, k)
    | inr (m, e) ↦
        rw (e, give_up, Puts)
          (
            inr (ground (arith, unlink-some (temporary p) p d.nodes m, temporary-ne p named)),
            λ q a b. ground (arith, unlink-some (temporary p) q d.nodes m, k q),
          )
  ]

  checked_object-Puts :
      (before : View) (d : Disk)
      → view d p ≡ some stream
      → view d (temporary p) ≡ none
      → SameBut p before (view d)
      → Puts sha256 stream sum p before
          (checked_object sha256 bucket object_key stream size sum p d)
  unfolding checked_object
  checked_object-Puts before d h t k = elim (Bool-cases (sum_differs sum (sha256 stream))) [
    | inl e ↦
        rw (e, Puts)
          (
            inl (refl, e, ground (arith, file_at-without p p d.nodes, path_eq_refl p)),
            λ q a b. ground (arith, file_at-without p q d.nodes, k q),
          )
    | inr e ↦ rw (e, Puts) (h, t, refl, e, k)
  ]

  put_at-Puts :
      (d : Disk)
      → Puts sha256 stream sum p (view d) (put_at sha256 bucket object_key stream size sum p d)
  unfolding put_at
  put_at-Puts d =
      let w = write_file (temporary p) (all_of stream) d in
      let apart = temporary-ne p named in
      let same : (q : FilePath) → path_eq (temporary p) q ≡ false → view w.1 q ≡ view d q =
        write_file-false (temporary p) (all_of stream) d in
      elim (Bool-cases w.0) [
        | inr e ↦ rw (e, Puts) (give_up-Puts (view d) w.1 (same p apart) (λ q a b. same q b))
        | inl e ↦ elim (Option-cases (replace (temporary p) p w.1.nodes)) [
          | inl r ↦ rw (e, r, Puts) (give_up-Puts (view d) w.1 (same p apart) (λ q a b. same q b))
          | inr (m, r) ↦
              rw (e, r, Puts)
                (subst
                  (λ (b : Bytes). Puts sha256 stream sum p (view d) (
                    checked_object sha256 bucket object_key b size sum p
                      (record w.1 { nodes = m })))
                  (sym (all_of-eq stream))
                  (checked_object-Puts (view d) (record w.1 { nodes = m })
                    (moved m e r p ∙ rw (path_eq_refl p) refl)
                    (moved m e r (temporary p)
                      ∙ ground (
                        arith,
                        path_eq_refl (temporary p),
                        path_eq_iff p (temporary p),
                        path_eq_iff (temporary p) p,
                      ))
                    (λ q a b. moved m e r q ∙ rw (a, b) refl)))
        ]
      ]
    where
      moved :
          (m : Nodes)
          → (write_file (temporary p) (all_of stream) d).0 ≡ true
          → replace (temporary p) p (write_file (temporary p) (all_of stream) d).1.nodes ≡ some m
          → (q : FilePath)
          → file_at q m ≡ (
              if path_eq p q
              then some stream
              else if path_eq (temporary p) q
              then none
              else file_at q d.nodes)
      moved m e r q =
          replace-write_file (temporary p) p q (all_of stream) d m e r ∙ rw (all_of-eq stream) refl

module _ (config : LocalStorageConfig) (sha256 : Bytes → Text) (bucket object_key : Text)
    (stream : Bytes) (size : Option ℕ) (sum : Option Text) (p : FilePath) (d : Disk)
    (found : object_path config bucket object_key ≡ ok p) where
  pub put_object-none :
      make_dirs [] (parent p) d.nodes ≡ none
      → put_object config sha256 bucket object_key stream size sum d
        ≡ (err (exception PyException.os_error), d)
  unfolding put_object
  put_object-none e = rw (found, at_path, e) refl

  pub put_object-some :
      (m : Nodes)
      → make_dirs [] (parent p) d.nodes ≡ some m
      → put_object config sha256 bucket object_key stream size sum d
        ≡ put_at sha256 bucket object_key stream size sum p (record d { nodes = m })
  unfolding put_object
  put_object-some m e = rw (found, at_path, e) refl

-- What a call of `put_object` leaves. If it returns, the file at the object's path holds the stream
-- and its digest is the etag, the given checksum agrees, and nothing stands at the path of the
-- temporary file. If it raises, the file at the object's path is as before, unless the checksum
-- differs, and then there is none. No other file changes.
pub put_object-Puts :
    (config : LocalStorageConfig) (sha256 : Bytes → Text) (bucket object_key : Text)
    (stream : Bytes) (size : Option ℕ) (sum : Option Text) (p : FilePath) (d : Disk)
    → object_path config bucket object_key ≡ ok p
    → p ≢ []
    → Puts sha256 stream sum p
        (view d)
        (put_object config sha256 bucket object_key stream size sum d)
put_object-Puts config sha256 bucket object_key stream size sum p d found named =
    elim (Option-cases (make_dirs [] (parent p) d.nodes)) [
      | inl e ↦
          rw (put_object-none config sha256 bucket object_key stream size sum p d found e)
            (inr refl, λ q a b. refl)
      | inr (m, e) ↦
          rw (put_object-some config sha256 bucket object_key stream size sum p d found m e) (
            subst
              (λ (v : View).
                Puts sha256 stream sum p v
                  (put_at sha256 bucket object_key stream size sum p (record d { nodes = m })))
              (fun_ext λ q. make_dirs-file_at [] (parent p) q d.nodes m e)
              (put_at-Puts sha256 bucket object_key size sum stream p named
                (record d { nodes = m })))
    ]
