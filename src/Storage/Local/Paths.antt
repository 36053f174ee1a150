-- ===== src/Storage/Local/Paths.antt =====
-- app/storage/local.py: where the local backend keeps objects and parts, and what its calls share.
use pyupload_x.Base.{
  ℕ, zero, suc, ◌-◌, Bool, false, not, Option, none, some, List, [], ◌∷◌, ◌++◌, if◌then◌else◌,
  length, Text, codes, text_eq,
}
use pyupload_x.Errors.{PyException, Result, ok, err, storage_unavailable, exception}
use pyupload_x.Ranges.Number.{decimal}
use pyupload_x.Paths.Segments.{split_on}
use pyupload_x.Storage.{Bytes, Effect}
use pyupload_x.Storage.Chunks.{chunk_bytes, copied}
use pyupload_x.Storage.FileSystem.{FilePath, is_under, join_path, resolve_from, Disk, unlink}

-- app/config/models.py, LocalStorageConfig
pub record LocalStorageConfig : Type 0 where
  pub root_path : FilePath
  pub multipart_path : FilePath

unfoldable pub safe_join : FilePath → List Text → Result FilePath
unfolding join_path resolve_from is_under
safe_join root parts =
    let resolved = resolve_from [] (join_path root parts) in
    if is_under root resolved then ok resolved else err (exception PyException.value_error)

-- `path.with_suffix(path.suffix + ".tmp")`
unfoldable pub temporary : FilePath → FilePath
temporary [] = []
temporary (s ∷ []) = (s ++ codes ".tmp") ∷ []
temporary (s ∷ t ∷ p) = s ∷ temporary (t ∷ p)

abbrev pub zeros : ℕ → Text
zeros zero = []
zeros (suc n) = b'0' ∷ zeros n

-- `f"{part_number:08d}.part"`
unfoldable pub part_name : ℕ → Text
unfolding decimal
part_name n = zeros (8 - length (decimal n)) ++ (decimal n ++ codes ".part")

-- A call whose path is refused raises, and does nothing.
abbrev pub at_path : {A : Type 0} → Result FilePath → (FilePath → Effect Disk A) → Effect Disk A
at_path (ok p) f d = f p d
at_path (err e) f d = (err e, d)

abbrev pub or_default : Option ℕ → ℕ → ℕ
or_default none n = n
or_default (some m) n = m

abbrev pub sum_differs : Option Text → Text → Bool
sum_differs none digest = false
sum_differs (some s) digest = not (text_eq s digest)

-- What a failed write ends with: the file is unlinked, unless that fails too.
unfoldable pub give_up : {A : Type 0} → FilePath → Effect Disk A
unfolding unlink
give_up p d = elim (unlink p d.nodes) [
  | none ↦ (err (exception PyException.os_error), d)
  | some nodes ↦ (err storage_unavailable, record d { nodes = nodes })
]

abbrev pub all_of : Bytes → Bytes
all_of stream = copied chunk_bytes (suc (length stream)) stream

module _ (config : LocalStorageConfig) where
  unfoldable pub object_path : Text → Text → Result FilePath
  unfolding safe_join split_on
  object_path bucket object_key = safe_join config.root_path (bucket ∷ split_on b'/' object_key)

  unfoldable pub parts_dir : Text → Result FilePath
  unfolding safe_join
  parts_dir upload_id = safe_join config.multipart_path (upload_id ∷ codes "parts" ∷ [])

  unfoldable pub upload_dir : Text → Result FilePath
  unfolding safe_join
  upload_dir upload_id = safe_join config.multipart_path (upload_id ∷ [])
