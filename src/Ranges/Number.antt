-- ===== src/Ranges/Number.antt =====
-- What Python's `int(text)`, `str(number)` and `text.strip()` do, on code points. Only the ASCII
-- digits are read as digits.
use pyupload_x.Base.{
  ℕ, zero, suc, ◌+◌, ◌-◌, ◌*◌, ◌/◌, ◌%◌, ◌≡◌, refl, Bool, true, false, ◌&&◌, ◌||◌, [], ◌∷◌, Option,
  none, some, ltb, leb, ◌==◌, if◌then◌else◌, Text, codes,
}
use pyupload_x.Base.Int.{ℤ, pos, negsuc, sub_ℕ}

-- `str.isspace` of one character
unfoldable pub is_space : ℕ → Bool
is_space c =
    (leb 9 c && leb c 13)
    || (leb 28 c && leb c 32)
    || (c == 0x85)
    || (c == 0xa0)
    || (c == 0x1680)
    || (leb 0x2000 c && leb c 0x200a)
    || (c == 0x2028)
    || (c == 0x2029)
    || (c == 0x202f)
    || (c == 0x205f)
    || (c == 0x3000)

unfoldable pub lstrip : Text → Text
lstrip [] = []
lstrip (c ∷ s) = if is_space c then lstrip s else c ∷ s

abbrev pub cons_unless_blank : ℕ → Text → Text
cons_unless_blank c [] = if is_space c then [] else c ∷ []
cons_unless_blank c (d ∷ s) = c ∷ d ∷ s

unfoldable pub rstrip : Text → Text
rstrip [] = []
rstrip (c ∷ s) = cons_unless_blank c (rstrip s)

-- `text.strip()`
unfoldable pub strip : Text → Text
unfolding lstrip rstrip is_space
strip s = rstrip (lstrip s)

abbrev pub is_digit : ℕ → Bool
is_digit c = leb 48 c && leb c 57

-- the interpreter's limit on the digits of a number that it reads from text
abbrev pub max_digits : ℕ
max_digits = 4300

-- The value so far, the digits read so far, and whether the last character was a digit: one `_` may
-- stand between two digits.
unfoldable pub digits_from : ℕ → ℕ → Bool → Text → Option ℕ
digits_from acc n after [] = if after && leb n max_digits then some acc else none
digits_from acc n after (c ∷ s) = elim (is_digit c) [
  | true ↦ digits_from (acc * 10 + (c - 48)) (n + 1) true s
  | false ↦ elim ((c == b'_') && after) [ true ↦ digits_from acc n false s | false ↦ none ]
]

abbrev pub negated : Option ℕ → Option ℤ
negated none = none
negated (some n) = some (sub_ℕ 0 n)

abbrev pub unsigned : Option ℕ → Option ℤ
unsigned none = none
unsigned (some n) = some (pos n)

unfoldable pub signed : Text → Option ℤ
unfolding digits_from
signed [] = none
signed (c ∷ s) =
    if c == b'-'
    then negated (digits_from 0 0 false s)
    else if c == b'+'
    then unsigned (digits_from 0 0 false s)
    else unsigned (digits_from 0 0 false (c ∷ s))

-- `int(text)`; `none` is its `ValueError`
unfoldable pub int_of : Text → Option ℤ
unfolding strip signed
int_of s = signed (strip s)

-- The digits of a number in front of a text, on fuel.
unfoldable pub decimal_onto : ℕ → ℕ → Text → Text
decimal_onto zero n s = s
decimal_onto (suc f) n s =
    let rest = decimal_onto f (n / 10) ((48 + n % 10) ∷ s) in
    if ltb n 10 then (48 + n) ∷ s else rest

-- `str(number)` of a natural number: there are at most `n + 1` digits.
unfoldable pub decimal : ℕ → Text
unfolding decimal_onto
decimal n = decimal_onto (suc n) n []

signed_forms :
    (int_of (codes " +1_000 ") ≡ some (pos 1000))
    × (int_of (codes "-7") ≡ some (negsuc 6))
    × (int_of (codes "1__0") ≡ none)
    × (int_of (codes "") ≡ none)
    × (decimal 1205 ≡ codes "1205")
unfolding int_of decimal
signed_forms = (refl, refl, refl, refl, refl)
