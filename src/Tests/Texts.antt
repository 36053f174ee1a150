-- ===== src/Tests/Texts.antt =====
-- Range headers and paths.
use pyupload_x.Base.{
  ◌≡◌, refl, sym, ap, ◌↔◌, false, some, List, [], ◌∷◌, ◌++◌, map, arith, any, All, Text, codes,
  text_eq, starts_with, utf8_width, utf8_length,
}
use pyupload_x.Base.Int.{pos, ◌-ℤ◌}
use pyupload_x.Errors.{ok, err, invalid_relative_path}
use pyupload_x.Ranges.{ByteRange, parse_byte_range}
use pyupload_x.Ranges.Number.{int_of, decimal, strip}
use pyupload_x.Ranges.Bounds.{IsWithin, parse_byte_range-IsWithin}
use pyupload_x.Ranges.Forms.{between, print_form, served, resolve, parse_byte_range-form}
use pyupload_x.Paths.{normalize_relative_path, normalize_in_client, is_unsafe, is_control}
use pyupload_x.Paths.Segments.{split_on}
use pyupload_x.Paths.Safety.{IsSafePath, normalize_relative_path-IsSafePath}
use pyupload_x.Paths.Normal.{NfcLaws, normalize_relative_path_idem, hidden_drive}
use pyupload_x.Paths.Client.{server-iff-client}

abbrev tail : ByteRange
tail = record { start = pos 2; end = pos 9 }

tail_parsed : parse_byte_range (some (codes "bytes=2-99")) 10 ≡ ok (some tail)
unfolding parse_byte_range int_of strip starts_with ◌-ℤ◌ normalize_relative_path text_eq utf8_length
    utf8_width decimal
tail_parsed = refl

parse_byte_range-IsWithin_example : IsWithin tail 10
parse_byte_range-IsWithin_example =
    parse_byte_range-IsWithin (codes "bytes=2-99") 10 tail tail_parsed

parse_byte_range-form_example :
    parse_byte_range (some (codes "bytes=" ++ print_form (between 2 99))) 10
    ≡ served (resolve (between 2 99) 10)
unfolding parse_byte_range int_of strip starts_with ◌-ℤ◌ normalize_relative_path text_eq utf8_length
    utf8_width decimal
parse_byte_range-form_example = parse_byte_range-form (between 2 99) 10 (omega arith, omega arith)

abbrev pub same : Text → Text
same s = s

map-same : (xs : List Text) → map same xs ≡ xs
map-same [] = refl
map-same (x ∷ xs) = ap (λ r. x ∷ r) (map-same xs)

pub same-NfcLaws : NfcLaws same
same-NfcLaws = record {
  idem = λ s. refl;
  split = λ s. sym (map-same (split_on b'/' s));
  inert = λ s h. h;
}

clean : normalize_relative_path same 8 64 (codes "a/./c") ≡ ok (codes "a/c")
unfolding parse_byte_range int_of strip starts_with ◌-ℤ◌ normalize_relative_path text_eq utf8_length
    utf8_width decimal
clean = refl

normalize_relative_path-IsSafePath_example : IsSafePath is_unsafe 8 64 (codes "a/c")
normalize_relative_path-IsSafePath_example =
    normalize_relative_path-IsSafePath same 8 64 (codes "a/./c") (codes "a/c") clean

normalize_relative_path_idem_example :
    normalize_relative_path same 8 64 (codes "a/c") ≡ ok (codes "a/c")
unfolding parse_byte_range int_of strip starts_with ◌-ℤ◌ normalize_relative_path text_eq utf8_length
    utf8_width decimal
normalize_relative_path_idem_example =
    normalize_relative_path_idem same 8 64 (codes "a/./c") (codes "a/c") same-NfcLaws clean refl

server-iff-client_example :
    (normalize_relative_path same 8 64 (codes "a/./c") ≡ ok (codes "a/c")) ↔ (
      (normalize_in_client same 8 64 (codes "a/./c") ≡ ok (codes "a/c"))
      × (any is_control (codes "a/./c") ≡ false)
      × All (λ p. is_unsafe p ≡ false) (split_on b'/' (codes "a/c")))
server-iff-client_example = server-iff-client same 8 64 (codes "a/./c") (codes "a/c")

hidden_drive_example :
    (normalize_relative_path same 8 64 (codes "C:x") ≡ err invalid_relative_path)
    × (normalize_relative_path same 8 64 (codes "./C:x") ≡ ok (codes "C:x"))
unfolding utf8_length utf8_width
hidden_drive_example =
    hidden_drive same 8 64 b'C' (codes "x") refl refl refl refl (omega arith) (omega arith)
