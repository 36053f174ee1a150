-- ===== src/Tests/Backend.antt =====
-- The local backend on an empty disk: objects, parts and their joining.
use pyupload_x.Sdk.Multipart.{part_body}
use pyupload_x.Base.{
  ℕ, ◌≤◌, ◌≡◌, refl, true, false, Option, none, some, List, [], ◌∷◌, arith, All, contains, range,
  Text, codes, text_eq, utf8_width, utf8_length,
}
use pyupload_x.Errors.{ok}
use pyupload_x.Storage.{Bytes, StoredObject, StoredPart}
use pyupload_x.Storage.Chunks.{concat, IsChunk, chunk_bytes}
use pyupload_x.Storage.FileSystem.{FilePath, file_at, is_under, Disk}
use pyupload_x.Storage.FileSystem.Writes.{view}
use pyupload_x.Storage.Local.{local_storage}
use pyupload_x.Storage.Local.Paths.{LocalStorageConfig, object_path, parts_dir, upload_dir}
use pyupload_x.Storage.Local.Keys.{object_path-injective, IsName}
use pyupload_x.Storage.Local.Listing.{sorted_parts}
use pyupload_x.Storage.Local.Objects.{put_object, get_object, object_chunks}
use pyupload_x.Storage.Local.Objects.Outcome.{Puts, put_object-Puts}
use pyupload_x.Storage.Local.Objects.Reading.{object_chunks-AreSlice}
use pyupload_x.Storage.Local.Objects.Refines.{
  ObjectCall, put, remove, run_call, run_calls, effects, run_calls-effects,
}
use pyupload_x.Storage.Local.Multipart.{complete_multipart_upload, upload_part}
use pyupload_x.Storage.Local.Multipart.Parts.{Uploads, stored_part, upload_part-Uploads}
use pyupload_x.Storage.Local.Multipart.Joined.{stored_numbers, joined, Joins, complete-Joins}
use pyupload_x.Storage.Local.Multipart.RoundTrip.{send_parts, complete-send_parts}
use pyupload_x.Paths.{normalize_relative_path}

abbrev config : LocalStorageConfig
config = record { root_path = codes "o" ∷ []; multipart_path = codes "m" ∷ [] }

-- a digest that gives the bytes themselves
abbrev digest : Bytes → Text
digest b = b

abbrev empty : Disk
empty = record { nodes = []; faults = [] }

abbrev object : FilePath
object = codes "o" ∷ codes "b" ∷ codes "a" ∷ codes "c" ∷ []

object_found : object_path config (codes "b") (codes "a/c") ≡ ok object
unfolding local_storage
object_found = refl

put_object-Puts_example :
    Puts digest
      (7 ∷ 8 ∷ [])
      none
      object
      (view empty)
      (put_object config digest (codes "b") (codes "a/c") (7 ∷ 8 ∷ []) none none empty)
put_object-Puts_example =
    put_object-Puts config digest (codes "b") (codes "a/c") (7 ∷ 8 ∷ []) none none object empty
      object_found (λ e. cc)

-- The write of the temporary file fails, and the old object stays.
abbrev stored : Disk
stored = (put_object config digest (codes "b") (codes "a/c") (7 ∷ 8 ∷ []) none none empty).1

put_fails :
    get_object config
      (codes "b")
      (codes "a/c")
      0
      none
      (put_object config digest
        (codes "b")
        (codes "a/c")
        (9 ∷ [])
        none
        none
        (record stored { faults = some 0 ∷ [] })).1
    ≡ ok (7 ∷ 8 ∷ [])
unfolding local_storage
put_fails = refl

object_there : file_at object stored.nodes ≡ some (7 ∷ 8 ∷ [])
unfolding local_storage
object_there = refl

object_chunks-AreSlice_example :
    (chunks : List Bytes) × (object_chunks config (codes "b") (codes "a/c") 1 (some 5) stored
      ≡ ok chunks)
    × All (IsChunk chunk_bytes) chunks
    × (concat chunks ≡ 8 ∷ [])
object_chunks-AreSlice_example =
    object_chunks-AreSlice config (codes "b") (codes "a/c") 1 (some 5) stored object (7 ∷ 8 ∷ [])
      object_found object_there

abbrev calls : List ObjectCall
calls =
    put (codes "b") (codes "a/c") (7 ∷ []) none none
    ∷ put (codes "b") (codes "d") (8 ∷ []) none none
    ∷ remove (codes "b") (codes "d")
    ∷ []

abbrev or_empty : Option Disk → Disk
or_empty none = empty
or_empty (some d) = d

abbrev ran : Disk
ran = or_empty (run_calls config digest calls empty)

calls_run : run_calls config digest calls empty ≡ some ran
unfolding local_storage run_calls run_call
calls_run = refl

run_calls-effects_example : view ran object ≡ effects config digest object calls none
unfolding local_storage
run_calls-effects_example =
    run_calls-effects config digest object calls empty ran (λ e. cc, (λ e. cc, (tt, tt))) refl
      calls_run

parts_found : parts_dir config (codes "u") ≡ ok (codes "m" ∷ codes "u" ∷ codes "parts" ∷ [])
unfolding local_storage
parts_found = refl

upload_found : upload_dir config (codes "u") ≡ ok (codes "m" ∷ codes "u" ∷ [])
unfolding local_storage
upload_found = refl

-- three bytes in parts of two, the second sent first, and twice
abbrev sent : Disk
sent = or_empty (send_parts config digest (codes "u") 2 (7 ∷ 8 ∷ 9 ∷ []) (2 ∷ 1 ∷ 2 ∷ []) empty)

all_sent :
    send_parts config digest (codes "u") 2 (7 ∷ 8 ∷ 9 ∷ []) (2 ∷ 1 ∷ 2 ∷ []) empty ≡ some sent
unfolding local_storage send_parts part_body
all_sent = refl

upload_part-Uploads_example :
    Uploads digest 1
      (7 ∷ 8 ∷ [])
      2
      (codes "m" ∷ codes "u" ∷ codes "parts" ∷ codes "00000001.part" ∷ [])
      (view sent)
      (upload_part config digest (codes "u") 1 (7 ∷ 8 ∷ []) 2 sent)
unfolding local_storage
upload_part-Uploads_example =
    upload_part-Uploads config digest (codes "u") 1 (7 ∷ 8 ∷ []) 2
      (codes "m" ∷ codes "u" ∷ codes "parts" ∷ []) sent parts_found

-- The backend lists the parts in the order of their numbers, and the client may give them in any.
two_parts : List StoredPart
two_parts = stored_part digest 2 (9 ∷ []) ∷ stored_part digest 1 (7 ∷ 8 ∷ []) ∷ []

complete-Joins_example :
    Joins digest
      (codes "m" ∷ codes "u" ∷ [])
      object
      (joined
        (view sent)
        (codes "m" ∷ codes "u" ∷ codes "parts" ∷ [])
        (stored_numbers (sorted_parts two_parts)))
      (view sent)
      (complete_multipart_upload config digest (codes "b") (codes "a/c") (codes "u") two_parts sent)
unfolding local_storage
complete-Joins_example =
    complete-Joins config digest (codes "b") (codes "a/c") (codes "u") two_parts object
      (codes "m" ∷ codes "u" ∷ codes "parts" ∷ []) (codes "m" ∷ codes "u" ∷ []) sent object_found
      parts_found upload_found (λ e. cc) refl

described : StoredObject
described = record {
  bucket = codes "b";
  object_key = codes "a/c";
  size_bytes = 3;
  etag = some (7 ∷ 8 ∷ 9 ∷ []);
}

abbrev whole : Disk
whole =
    (complete_multipart_upload config digest (codes "b") (codes "a/c") (codes "u") two_parts sent).1

completed :
    complete_multipart_upload config digest (codes "b") (codes "a/c") (codes "u") two_parts sent
    ≡ (ok described, whole)
unfolding local_storage send_parts part_body two_parts described
completed = refl

one_to_two : (n : ℕ) → 1 ≤ n → n ≤ 2 → contains n (2 ∷ 1 ∷ 2 ∷ []) ≡ true
one_to_two n low high = ground arith

complete-send_parts_example :
    (get_object config (codes "b") (codes "a/c") 1 none whole ≡ ok (8 ∷ 9 ∷ []))
    × (described.size_bytes ≡ 3)
    × (described.etag ≡ some (7 ∷ 8 ∷ 9 ∷ []))
complete-send_parts_example =
    complete-send_parts config digest (codes "b") (codes "a/c") (codes "u") object
      (codes "m" ∷ codes "u" ∷ codes "parts" ∷ []) (codes "m" ∷ codes "u" ∷ []) 2 2 (7 ∷ 8 ∷ 9 ∷ [])
      (2 ∷ 1 ∷ 2 ∷ []) two_parts empty sent whole described 1 none object_found parts_found
      upload_found (λ e. cc) apart (omega arith) one_to_two all_sent sorted completed
  where
    apart : is_under (codes "m" ∷ codes "u" ∷ []) object ≡ false
    apart = unfold is_under text_eq in refl

    sorted : stored_numbers (sorted_parts two_parts) ≡ range 1 2
    sorted = unfold sorted_parts two_parts in refl

object_path-injective_example :
    (is_under (codes "o" ∷ codes "b" ∷ []) object ≡ true)
    × (codes "b" ≡ codes "b")
    × (codes "a/c" ≡ codes "a/c")
unfolding text_eq normalize_relative_path utf8_length utf8_width
object_path-injective_example =
    object_path-injective config (refl, tt) (λ s. s) 8 64 (codes "a/./c") (codes "a//c")
      (codes "a/c") (codes "a/c") (codes "b") (codes "b") object named named dotted doubled
      object_found object_found
  where
    named : IsName (codes "b")
    named = (refl, refl, refl)

    dotted : normalize_relative_path (λ s. s) 8 64 (codes "a/./c") ≡ ok (codes "a/c")
    dotted = refl

    doubled : normalize_relative_path (λ s. s) 8 64 (codes "a//c") ≡ ok (codes "a/c")
    doubled = refl
