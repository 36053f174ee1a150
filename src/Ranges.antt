-- ===== src/Ranges.antt =====
-- app/core/ranges.py: the Range header of a download. A header is a list of code points.
pub mod Number
pub mod Bounds
pub mod Decimal
pub mod Forms
use pyupload_x.Base.{
  ℕ, ◌+◌, Bool, Option, none, some, [], ◌∷◌, Text, codes, starts_with, ◌==◌, if◌then◌else◌, drop,
  ◌||◌, contains, true, false, ◌≡◌, refl,
}
use pyupload_x.Base.Int.{ℤ, pos, leb_ℤ, ltb_ℤ, min_ℤ, max_ℤ, ◌+ℤ◌, ◌-ℤ◌}
use pyupload_x.Errors.{range_not_satisfiable, Result, ok, err}
use Number.{int_of, strip, digits_from}

-- `end` is inclusive
pub record ByteRange : Type 0 where
  pub start : ℤ
  pub end : ℤ

-- the property `length`
unfoldable pub range_length : ByteRange → ℤ
unfolding ◌+ℤ◌ ◌-ℤ◌
range_length r = r.end -ℤ r.start +ℤ pos 1

-- `text.split(c, 1)`, where `c` stands in the text
unfoldable pub split_once : ℕ → Text → Option (Text × Text)
split_once c [] = none
split_once c (d ∷ s) =
    if d == c
    then some ([], s)
    else elim (split_once c s) [ none ↦ none | some (a, b) ↦ some (d ∷ a, b) ]

abbrev pub suffix_bounds : Option ℤ → ℕ → Option (ℤ × ℤ)
suffix_bounds none size = none
suffix_bounds (some suffix) size =
    if leb_ℤ suffix (pos 0)
    then none
    else some (max_ℤ (pos 0) (pos size -ℤ suffix), pos size -ℤ pos 1)

abbrev pub end_bound : Text → ℕ → Option ℤ
end_bound [] size = some (pos size -ℤ pos 1)
end_bound (c ∷ s) size = int_of (c ∷ s)

abbrev pub pair_bounds : Option ℤ → Option ℤ → Option (ℤ × ℤ)
pair_bounds none e = none
pair_bounds (some s) none = none
pair_bounds (some s) (some e) = some (s, e)

-- The `try` block; `none` is a `ValueError`.
unfoldable pub bounds_of : Text → Text → ℕ → Option (ℤ × ℤ)
bounds_of [] end_text size = suffix_bounds (int_of end_text) size
bounds_of (c ∷ s) end_text size = pair_bounds (int_of (c ∷ s)) (end_bound end_text size)

unfoldable pub satisfiable : ℤ → ℤ → ℕ → Result (Option ByteRange)
satisfiable start end size =
    if (size == 0) || leb_ℤ (pos size) start || ltb_ℤ end start
    then err range_not_satisfiable
    else ok (some (record { start = start; end = min_ℤ end (pos size -ℤ pos 1) }))

abbrev pub range_of_bounds : Option (ℤ × ℤ) → ℕ → Result (Option ByteRange)
range_of_bounds none size = err range_not_satisfiable
range_of_bounds (some (start, end)) size = satisfiable start end size

abbrev pub range_of_parts : Option (Text × Text) → ℕ → Result (Option ByteRange)
range_of_parts none size = err range_not_satisfiable
range_of_parts (some (start_text, end_text)) size =
    range_of_bounds (bounds_of start_text end_text size) size

unfoldable pub range_of_spec : Text → ℕ → Result (Option ByteRange)
unfolding bounds_of satisfiable split_once
range_of_spec spec size =
    if contains b',' spec
    then err range_not_satisfiable
    else range_of_parts (split_once b'-' spec) size

unfoldable pub parse_byte_range : Option Text → ℕ → Result (Option ByteRange)
unfolding range_of_spec
parse_byte_range none size = ok none
parse_byte_range (some header) size =
    if starts_with (codes "bytes=") header
    then range_of_spec (strip (drop 6 header)) size
    else err range_not_satisfiable

parse_forms :
    (parse_byte_range (some (codes "bytes=2-99")) 10
      ≡ ok (some (record { start = pos 2; end = pos 9 })))
    × (parse_byte_range (some (codes "bytes=-3")) 10
        ≡ ok (some (record { start = pos 7; end = pos 9 })))
    × (parse_byte_range (some (codes "bytes=5--3")) 10 ≡ err range_not_satisfiable)
    × (parse_byte_range (some (codes "bytes=1-2,4-5")) 10 ≡ err range_not_satisfiable)
unfolding parse_byte_range int_of strip starts_with ◌-ℤ◌
parse_forms = (refl, refl, refl, refl)
