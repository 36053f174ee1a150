-- ===== src/Storage/Local/Listing.antt =====
-- app/storage/local.py: the part files of an upload, as they are listed and as they are joined.
use pyupload_x.Base.{
  ℕ, suc, Bool, true, false, ◌&&◌, ◌||◌, Option, none, some, List, [], ◌∷◌, ◌++◌, ltb, leb, ◌==◌,
  if◌then◌else◌, length, Text, codes, text_eq,
}
use pyupload_x.Base.Int.{pos, pos_part}
use pyupload_x.Errors.{PyException, Result, ok, err, exception}
use pyupload_x.Errors.{◌>>=◌ as bind_result}
use pyupload_x.Ranges.Number.{int_of}
use pyupload_x.Storage.{Bytes, StoredPart}
use pyupload_x.Storage.Chunks.{chunk_bytes, copied}
use pyupload_x.Storage.FileSystem.{FilePath, Node, directory, file, Nodes, file_at}
use pyupload_x.Storage.Local.Paths.{part_name}

-- The file's name without `.part`, if it ends so: `glob("*.part")` and `stem`.
unfoldable pub part_stem : Text → Option Text
unfolding text_eq
part_stem [] = none
part_stem (c ∷ s) =
    if text_eq (c ∷ s) (codes ".part")
    then some []
    else elim (part_stem s) [ none ↦ none | some stem ↦ some (c ∷ stem) ]

unfoldable pub text_leb : Text → Text → Bool
text_leb [] t = true
text_leb (c ∷ s) [] = false
text_leb (c ∷ s) (d ∷ t) = ltb c d || ((c == d) && text_leb s t)

-- the name of a path that is an entry of a directory
unfoldable pub name_in : FilePath → FilePath → Option Text
name_in [] [] = none
name_in [] (s ∷ []) = some s
name_in [] (s ∷ t ∷ p) = none
name_in (r ∷ dir) [] = none
name_in (r ∷ dir) (s ∷ p) = if text_eq r s then name_in dir p else none

abbrev pub size_of : Node → ℕ
size_of directory = 0
size_of (file b) = length b

abbrev pub bind_option {ℓ κ} : {A : Type ℓ} {B : Type κ} → Option A → (A → Option B) → Option B
bind_option none f = none
bind_option (some a) f = f a

-- The stems of the part files of a directory, with their sizes, and in the order of their names.
unfoldable pub part_files : FilePath → Nodes → List (Text × ℕ)
unfolding name_in part_stem
part_files dir [] = []
part_files dir ((p, n) ∷ rest) = elim (bind_option (name_in dir p) part_stem) [
  | none ↦ part_files dir rest
  | some stem ↦ (stem, size_of n) ∷ part_files dir rest
]

unfoldable pub insert_by_name : Text × ℕ → List (Text × ℕ) → List (Text × ℕ)
unfolding text_leb
insert_by_name f [] = f ∷ []
insert_by_name f (g ∷ gs) = if text_leb f.0 g.0 then f ∷ g ∷ gs else g ∷ insert_by_name f gs

unfoldable pub sorted_by_name : List (Text × ℕ) → List (Text × ℕ)
unfolding insert_by_name
sorted_by_name [] = []
sorted_by_name (f ∷ fs) = insert_by_name f (sorted_by_name fs)

-- `UploadedPart(part_number=int(part_path.stem), …)`
unfoldable pub listed : List (Text × ℕ) → Result (List StoredPart)
unfolding int_of
listed [] = ok []
listed ((stem, size) ∷ fs) = elim (int_of stem) [
  | none ↦ err (exception PyException.value_error)
  | some n ↦ bind_result (listed fs) (λ parts. ok (
      (record {
        part_number = pos_part n;
        etag = [];
        size_bytes = pos size;
        checksum_sha256 = none;
      })
      ∷ parts))
]

-- `sorted(parts, key=lambda p: p.part_number)`
unfoldable pub insert_part : StoredPart → List StoredPart → List StoredPart
insert_part p [] = p ∷ []
insert_part p (q ∷ qs) =
    if leb p.part_number q.part_number then p ∷ q ∷ qs else q ∷ insert_part p qs

unfoldable pub sorted_parts : List StoredPart → List StoredPart
unfolding insert_part
sorted_parts [] = []
sorted_parts (p ∷ ps) = insert_part p (sorted_parts ps)

-- The loop over the parts: what is read until a file is missing, and whether none is.
unfoldable pub join_files : FilePath → List StoredPart → Nodes → Bytes × Bool
unfolding part_name file_at copied
join_files dir [] nodes = ([], true)
join_files dir (p ∷ ps) nodes = elim (file_at (dir ++ part_name p.part_number ∷ []) nodes) [
  | none ↦ ([], false)
  | some b ↦
      let (rest, complete) = join_files dir ps nodes in
      (copied chunk_bytes (suc (length b)) b ++ rest, complete)
]
