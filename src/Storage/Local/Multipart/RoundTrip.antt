-- ===== src/Storage/Local/Multipart/RoundTrip.antt =====
-- The client's cutting of a file (sdk/pyuploadx/multipart.py) and the local backend's joining of the
-- parts (app/storage/local.py) undo one another.
use pyupload_x.Base.{
  ℕ, zero, suc, ◌+◌, ◌*◌, ◌≤◌, ◌<◌, ◌≡◌, refl, sym, ap, subst, ◌∙◌, ◌≢◌, inl, inr, true, false,
  Option, none, some, List, [], ◌∷◌, map, arith, ◌==◌, if◌then◌else◌, Bool-cases, Option-cases,
  length, drop, contains, range, Text,
}
use pyupload_x.Errors.{Result, ok, err}
use pyupload_x.Storage.{Bytes, StoredObject, StoredPart}
use pyupload_x.Storage.Chunks.{concat, limited}
use pyupload_x.Storage.FileSystem.{FilePath, is_under, Disk}
use pyupload_x.Storage.FileSystem.Writes.{View, view}
use pyupload_x.Storage.Local.Paths.{LocalStorageConfig, object_path, parts_dir, upload_dir}
use pyupload_x.Storage.Local.Listing.{sorted_parts}
use pyupload_x.Storage.Local.Objects.{get_object}
use pyupload_x.Storage.Local.Objects.Reading.{get_object-eq}
use pyupload_x.Storage.Local.Multipart.{upload_part, complete_multipart_upload}
use pyupload_x.Storage.Local.Multipart.Names.{part_path, part_path-eq}
use pyupload_x.Storage.Local.Multipart.Parts.{Uploads, upload_part-Uploads}
use pyupload_x.Storage.Local.Multipart.Joined.{stored_numbers, joined, Joins, complete-Joins}
use pyupload_x.Sdk.Multipart.{part_body, concat-part_body-all}

abbrev pub went_on : Result StoredPart × Disk → Option Disk
went_on (ok part, d) = some d
went_on (err e, d) = none

abbrev pub then_on : Option Disk → (Disk → Option Disk) → Option Disk
then_on none f = none
then_on (some d) f = f d

module _ (config : LocalStorageConfig) (sha256 : Bytes → Text) (upload_id : Text) (part_size : ℕ)
    (content : Bytes) where
  -- The parts of some numbers, sent in this order, if each call returns.
  unfoldable pub send_parts : List ℕ → Disk → Option Disk
  send_parts [] d = some d
  send_parts (n ∷ ns) d =
      let body = part_body part_size content n in
      then_on (went_on (upload_part config sha256 upload_id n body (length body) d)) (send_parts ns)

  module _ (dir : FilePath) (found : parts_dir config upload_id ≡ ok dir) where
    sent_one :
        (n : ℕ) (d : Disk) (x : Result StoredPart × Disk) (d' : Disk)
        → Uploads sha256 n
            (part_body part_size content n)
            (length (part_body part_size content n))
            (part_path dir n)
            (view d)
            x
        → went_on x ≡ some d'
        → (m : ℕ)
        → view d' (part_path dir m)
          ≡ (if m == n then some (part_body part_size content n) else view d (part_path dir m))
    sent_one n d (ok part, e) d' u h m =
        let same : e ≡ d' = ground arith in
        elim (Bool-cases (m == n)) [
          | inl q ↦ ground (arith, u.0)
          | inr q ↦ ground (arith, u.3 (part_path dir m) (part_path-eq dir n m ∙ ground arith))
        ]
    sent_one n d (err x, e) d' u h m = cc

    -- Every part that was sent is in its file, in whatever order they were sent.
    send_parts-view :
        (ns : List ℕ) (d d' : Disk)
        → send_parts ns d ≡ some d'
        → (m : ℕ)
        → view d' (part_path dir m) ≡ (
            if contains m ns
            then some (part_body part_size content m)
            else view d (part_path dir m))
    unfolding send_parts
    send_parts-view [] d d' h m = ground arith
    send_parts-view (n ∷ ns) d d' h m =
        let body = part_body part_size content n in
        let x = upload_part config sha256 upload_id n body (length body) d in
        elim (Option-cases (went_on x)) [
          | inl e ↦ ground arith
          | inr (d'', e) ↦
              let rest : send_parts ns d'' ≡ some d' = ground arith in
              let one =
                sent_one n d x d''
                  (upload_part-Uploads config sha256 upload_id n body (length body) dir d found) e
                  m in
              ground (arith, send_parts-view ns d'' d' rest m, one)
        ]

joined-concat :
    (v : View) (dir : FilePath) (body : ℕ → Bytes) (ns : List ℕ)
    → ((n : ℕ) → contains n ns ≡ true → v (part_path dir n) ≡ some (body n))
    → joined v dir ns ≡ some (concat (map body ns))
unfolding joined concat
joined-concat v dir body [] h = refl
joined-concat v dir body (n ∷ ns) h =
    let rest : joined v dir ns ≡ some (concat (map body ns)) =
      joined-concat v dir body ns (λ m c. h m (ground arith)) in
    let first : v (part_path dir n) ≡ some (body n) = h n (ground arith) in ground arith

contains-range : (n lo count : ℕ) → contains n (range lo count) ≡ true → (lo ≤ n) × (n < lo + count)
contains-range n lo zero h = cc
contains-range n lo (suc count) h = ground (arith, contains-range n (suc lo) count)

module _ (config : LocalStorageConfig) (sha256 : Bytes → Text) (bucket object_key upload_id : Text)
    (p dir up : FilePath) where
  -- A file is cut into parts by the client, and the parts are sent in any order, some of them perhaps
  -- more than once. When each call returned, and the completion did with parts whose numbers are, in
  -- order, those from 1 on, then reading the object yields the file, or what was asked for of it, and
  -- the object has the file's size and digest. The object is not kept among the parts.
  pub complete-send_parts :
      (part_size total_parts : ℕ) (content : Bytes) (order : List ℕ) (parts : List StoredPart)
      (d d' d'' : Disk) (o : StoredObject) (offset : ℕ) (length' : Option ℕ)
      → object_path config bucket object_key ≡ ok p
      → parts_dir config upload_id ≡ ok dir
      → upload_dir config upload_id ≡ ok up
      → p ≢ []
      → is_under up p ≡ false
      → length content ≤ total_parts * part_size
      → ((n : ℕ) → 1 ≤ n → n ≤ total_parts → contains n order ≡ true)
      → send_parts config sha256 upload_id part_size content order d ≡ some d'
      → stored_numbers (sorted_parts parts) ≡ range 1 total_parts
      → complete_multipart_upload config sha256 bucket object_key upload_id parts d' ≡ (ok o, d'')
      → (get_object config bucket object_key offset length' d''
          ≡ ok (limited length' (drop offset content)))
        × (o.size_bytes ≡ length content)
        × (o.etag ≡ some (sha256 content))
  complete-send_parts part_size total_parts content order parts d d' d'' o offset length' found
        found_dir found_up named apart enough all_sent sent numbers done =
      let whole : joined (view d') dir (stored_numbers (sorted_parts parts)) ≡ some content =
        rw numbers (
          joined-concat (view d') dir (part_body part_size content) (range 1 total_parts) (λ n c.
            let (low, high) = contains-range n 1 total_parts c in
            send_parts-view config sha256 upload_id part_size content dir found_dir order d d' sent
              n
            ∙ rw (all_sent n low (omega arith)) refl)
          ∙ ap some (concat-part_body-all part_size total_parts content enough)) in
      let (there, some_there, described, cleared, same) =
        subst
          (λ (x : Result StoredObject × Disk).
            Joins sha256 up p (joined (view d') dir (stored_numbers (sorted_parts parts))) (view d')
              x)
          done
          (complete-Joins config sha256 bucket object_key upload_id parts p dir up d' found
            found_dir found_up named apart) in
      (
        get_object-eq config bucket object_key offset length' d'' p content found
            (sym there ∙ whole),
        (described content whole).0,
        (described content whole).1,
      )
