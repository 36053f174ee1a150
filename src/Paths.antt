-- ===== src/Paths.antt =====
-- app/directory_upload/paths.py and its client-side copy, sdk/pyuploadx/paths.py: relative paths.
-- `unicodedata.normalize("NFC", s)` stands for tables of the Unicode database and is the parameter
-- `nfc`; what is relied on is `NfcLaws`.
pub mod Segments
pub mod Safety
pub mod Normal
pub mod Client
pub mod Prefix
use pyupload_x.Base.{
  ℕ, Bool, true, false, ◌||◌, List, [], ◌∷◌, ◌++◌, map, ltb, ◌==◌, if◌then◌else◌, length, any,
  contains, Text, codes, text_eq, contains_text, starts_with, utf8_length,
}
use pyupload_x.Errors.{Result, ok, err, ◌>>=◌, ◌>>◌, raise_if, invalid_relative_path}
use Segments.{split_on, join}

-- `_CONTROL_CHARS`
abbrev pub is_control : ℕ → Bool
is_control c = ltb c 32 || (c == 127)

-- `raw_path.replace("\\", "/")`
abbrev pub to_slash : ℕ → ℕ
to_slash c = if c == b'\\' then b'/' else c

-- `len(s) >= 2 and s[1] == ":"`
unfoldable pub is_drive : Text → Bool
is_drive [] = false
is_drive (c ∷ []) = false
is_drive (c ∷ d ∷ s) = d == b':'

-- the segments that stand for the directory itself
abbrev pub is_skipped : Text → Bool
is_skipped p = text_eq p [] || text_eq p (codes ".")

abbrev pub is_parent : Text → Bool
is_parent p = text_eq p (codes "..")

abbrev pub unsafe_segments : List Text
unsafe_segments =
    codes "~" ∷ codes "*" ∷ codes "?" ∷ codes "\"" ∷ codes "<" ∷ codes ">" ∷ codes "|" ∷ []

unfoldable pub is_unsafe : Text → Bool
is_unsafe p = contains_text p unsafe_segments

-- The loop over the segments, with the test that refuses one beside `..`.
unfoldable pub keep_parts : (Text → Bool) → List Text → Result (List Text)
keep_parts refuse [] = ok []
keep_parts refuse (p ∷ ps) =
    let rest = keep_parts refuse ps in
    if is_skipped p
    then rest
    else if is_parent p || refuse p
    then err invalid_relative_path
    else (do qs ← rest; ok (p ∷ qs))

abbrev pub is_empty : Text → Bool
is_empty [] = true
is_empty (c ∷ s) = false

-- The checks after the loop.
unfoldable pub bounded_path : ℕ → ℕ → List Text → Result Text
unfolding join
bounded_path maximum_depth maximum_bytes parts = do
  raise_if (is_empty (join parts)) invalid_relative_path
  raise_if (ltb maximum_depth (length parts)) invalid_relative_path
  raise_if (ltb maximum_bytes (utf8_length (join parts))) invalid_relative_path
  ok (join parts)

-- What both copies do from `nfc_path` on.
unfoldable pub normalize_posix : (Text → Bool) → ℕ → ℕ → Text → Result Text
unfolding keep_parts bounded_path split_on starts_with is_drive
normalize_posix refuse maximum_depth maximum_bytes path = do
  raise_if (starts_with (codes "/") path) invalid_relative_path
  raise_if (is_drive path) invalid_relative_path
  parts ← keep_parts refuse (split_on b'/' path)
  bounded_path maximum_depth maximum_bytes parts

lstrip_slashes : Text → Text
lstrip_slashes [] = []
lstrip_slashes (c ∷ s) = if c == b'/' then lstrip_slashes s else c ∷ s

abbrev pub cons_unless_slash : ℕ → Text → Text
cons_unless_slash c [] = if c == b'/' then [] else c ∷ []
cons_unless_slash c (d ∷ s) = c ∷ d ∷ s

rstrip_slashes : Text → Text
rstrip_slashes [] = []
rstrip_slashes (c ∷ s) = cons_unless_slash c (rstrip_slashes s)

-- `prefix.strip("/")`
unfoldable pub strip_slashes : Text → Text
unfolding lstrip_slashes rstrip_slashes
strip_slashes s = rstrip_slashes (lstrip_slashes s)

-- the f-string of `join_prefix`
abbrev pub under : Text → Text → Text
under [] key = key
under (c ∷ prefix) key = (c ∷ prefix) ++ b'/' ∷ key

module _ (nfc : Text → Text) where
  unfoldable pub normalize_relative_path : ℕ → ℕ → Text → Result Text
  unfolding normalize_posix is_unsafe
  normalize_relative_path maximum_depth maximum_bytes raw = do
    raise_if (contains 0 raw) invalid_relative_path
    raise_if (any is_control raw) invalid_relative_path
    normalize_posix is_unsafe maximum_depth maximum_bytes (nfc (map to_slash raw))

  -- sdk/pyuploadx/paths.py; its `ValidationError` is the same error here
  unfoldable pub normalize_in_client : ℕ → ℕ → Text → Result Text
  unfolding normalize_posix
  normalize_in_client maximum_depth maximum_bytes raw =
      normalize_posix (λ p. false) maximum_depth maximum_bytes (nfc (map to_slash raw))

  unfoldable pub join_prefix : Text → Text → Result Text
  unfolding strip_slashes
  join_prefix prefix relative_path = do
    normalized ← normalize_relative_path 64 1024 relative_path
    ok (under (strip_slashes prefix) normalized)
