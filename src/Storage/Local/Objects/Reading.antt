-- ===== src/Storage/Local/Objects/Reading.antt =====
-- `get_object` of app/storage/local.py: what its stream yields.
use pyupload_x.Base.{ℕ, suc, ◌≡◌, Option, some, List, arith, length, drop, All, length-drop, Text}
use pyupload_x.Errors.{ok}
use pyupload_x.Storage.{Bytes}
use pyupload_x.Storage.Chunks.{
  chunk_bytes, read_chunks, concat, limited, IsChunk, read_chunks-IsChunk, concat-read_chunks,
}
use pyupload_x.Storage.FileSystem.{FilePath, file_at, Disk}
use pyupload_x.Storage.Local.Paths.{LocalStorageConfig, object_path}
use pyupload_x.Storage.Local.Objects.{object_chunks, get_object}

-- Where a file stands at an object's path, the stream yields chunks that are not empty and not above
-- 1 MiB, and they are together the bytes of the file from the offset on, up to the length, or to the
-- end where no length is given or the file is shorter.
pub object_chunks-AreSlice :
    (config : LocalStorageConfig) (bucket object_key : Text) (offset : ℕ) (length' : Option ℕ)
    (d : Disk) (p : FilePath) (b : Bytes)
    → object_path config bucket object_key ≡ ok p
    → file_at p d.nodes ≡ some b
    → (chunks : List Bytes) × (object_chunks config bucket object_key offset length' d ≡ ok chunks)
      × All (IsChunk chunk_bytes) chunks
      × (concat chunks ≡ limited length' (drop offset b))
unfolding object_chunks file_at
object_chunks-AreSlice config bucket object_key offset length' d p b found there =
    let fuel = suc (length b) in
    (
      read_chunks chunk_bytes fuel length' (drop offset b),
      ground arith,
      read_chunks-IsChunk chunk_bytes fuel length' (drop offset b),
      concat-read_chunks chunk_bytes fuel length' (drop offset b) (omega arith)
          (omega (arith, length-drop offset b)),
    )

pub get_object-eq :
    (config : LocalStorageConfig) (bucket object_key : Text) (offset : ℕ) (length' : Option ℕ)
    (d : Disk) (p : FilePath) (b : Bytes)
    → object_path config bucket object_key ≡ ok p
    → file_at p d.nodes ≡ some b
    → get_object config bucket object_key offset length' d ≡ ok (limited length' (drop offset b))
unfolding get_object
get_object-eq config bucket object_key offset length' d p b found there =
    let (chunks, made, small, all_bytes) =
      object_chunks-AreSlice config bucket object_key offset length' d p b found there in
    ground arith
