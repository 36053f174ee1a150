-- ===== src/Directories/Manifest.antt =====
-- `complete_manifest` of app/services/directory_upload_service.py, and the hash of
-- app/directory_upload/manifest.py. The JSON lines and their SHA-256 are the parameter `digest`.
use pyupload_x.Base.{
  ℕ, Bool, true, false, not, ◌||◌, Option, none, some, List, [], ◌∷◌, map, ltb, ◌==◌, if◌then◌else◌,
  length, select, Text, text_eq,
}
use pyupload_x.Base.Int.{ℤ}
use pyupload_x.Errors.{upload_state_conflict, manifest_incomplete, manifest_hash_mismatch}
use pyupload_x.Db.Rows.{nonempty}
use pyupload_x.Db.Directories.{
  JobStatus, EntryType, DirectoryJob, DirectoryEntry, job_eq, entries_of,
}
use pyupload_x.Request.{Identity, App, Action, pure, gets, raise_when, ◌>>=◌, ◌>>◌}
use pyupload_x.Directories.Service.{one_of, get_job, move_to}

-- the order of Python's strings
unfoldable pub text_leb : Text → Text → Bool
text_leb [] t = true
text_leb (c ∷ s) [] = false
text_leb (c ∷ s) (d ∷ t) = if ltb c d then true else if ltb d c then false else text_leb s t

abbrev pub ManifestLine : Type 0
ManifestLine = Text × ℤ × Option Text

unfoldable pub insert_line : ManifestLine → List ManifestLine → List ManifestLine
unfolding text_leb
insert_line l [] = l ∷ []
insert_line l (m ∷ ms) = if text_leb l.0 m.0 then l ∷ m ∷ ms else m ∷ insert_line l ms

-- `sorted(entries, key=…)`
unfoldable pub sort_lines : List ManifestLine → List ManifestLine
unfolding insert_line
sort_lines [] = []
sort_lines (l ∷ ls) = insert_line l (sort_lines ls)

abbrev pub is_file_entry : EntryType → Bool
is_file_entry EntryType.file = true
is_file_entry EntryType.directory = false

abbrev pub line_of : DirectoryEntry → ManifestLine
line_of e = (e.normalized_path, e.size_bytes, e.fingerprint)

abbrev pub differs : Option Text → Text → Bool
differs none t = false
differs (some s) t = not (text_eq s t)

abbrev pub is_count : Option ℕ → ℕ → Bool
is_count none n = false
is_count (some m) n = m == n

-- what `counts` says, where a missing key is `none`
abbrev pub ManifestCounts : Type 0
ManifestCounts = Option ℕ × Option ℕ

abbrev pub counts_differ : Option ManifestCounts → DirectoryJob → Bool
counts_differ none j = false
counts_differ (some (files, directories)) j =
    not (is_count files j.total_files) || not (is_count directories j.total_directories)

module _ (digest : List ManifestLine → Text) where
  unfoldable pub manifest_hash_from_entries : List ManifestLine → Text
  unfolding sort_lines
  manifest_hash_from_entries ls = digest (sort_lines ls)

  module _ {S : Type 0} (app : App S) (identity : Identity) where
    -- Returns the job and its hash, which the source keeps in the row.
    unfoldable pub complete_manifest :
        ℕ → Option Text → Option ManifestCounts → Action S (DirectoryJob × Text)
    unfolding get_job move_to job_eq manifest_hash_from_entries
    complete_manifest job_id expected_hash counts = do
      j ← get_job app identity job_id
      raise_when (not (one_of (JobStatus.created ∷ JobStatus.manifest_uploading ∷ []) j.status))
          upload_state_conflict
      w ← gets (λ w. w)
      let entries = entries_of j.id w.db.entries
      raise_when (length entries == 0) manifest_incomplete
      let hash =
          manifest_hash_from_entries
            (map line_of (select (λ e. is_file_entry e.entry_type) entries))
      raise_when (differs (nonempty expected_hash) hash) manifest_hash_mismatch
      raise_when (counts_differ counts j) manifest_incomplete
      k ← move_to app identity j JobStatus.ready
      pure (k, hash)
