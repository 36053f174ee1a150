-- ===== src/Buckets/Names.antt =====
-- `validate_name` of app/services/bucket_service.py. `_BUCKET_NAME_RE` is read as conditions on the
-- first, the last and each character, and on the number of them.
use pyupload_x.Base.{
  ℕ, Bool, false, not, ◌&&◌, ◌||◌, [], ◌∷◌, leb, ◌==◌, if◌then◌else◌, length, all, Text, codes,
  starts_with,
}
use pyupload_x.Errors.{Result, ok, err, invalid_bucket_name}
use pyupload_x.Ranges.Number.{is_digit, strip}

abbrev pub is_alnum : ℕ → Bool
is_alnum c = (leb b'a' c && leb c b'z') || is_digit c

abbrev pub is_name_char : ℕ → Bool
is_name_char c = is_alnum c || (c == b'.') || (c == b'-')

abbrev pub first_is_alnum : Text → Bool
first_is_alnum [] = false
first_is_alnum (c ∷ s) = is_alnum c

abbrev pub last_is_alnum : Text → Bool
last_is_alnum [] = false
last_is_alnum (c ∷ []) = is_alnum c
last_is_alnum (c ∷ d ∷ s) = last_is_alnum (d ∷ s)

-- `_BUCKET_NAME_RE.fullmatch(name)`
abbrev pub matches_bucket_name : Text → Bool
matches_bucket_name s =
    leb 3 (length s)
    && leb (length s) 63
    && first_is_alnum s
    && last_is_alnum s
    && all is_name_char s

-- `".." in name`
abbrev pub has_two_dots : Text → Bool
has_two_dots [] = false
has_two_dots (c ∷ s) = starts_with (codes "..") (c ∷ s) || has_two_dots s

unfoldable pub validate_name : Text → Result Text
unfolding strip starts_with
validate_name name =
    let name' = strip name in
    if not (matches_bucket_name name') || has_two_dots name'
    then err invalid_bucket_name
    else ok name'
