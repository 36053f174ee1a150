-- ===== src/Overrides/Values.antt =====
-- The JSON values that the body of a settings request may hold, and what is made of them.
use pyupload_x.Base.{
  suc, Bool, true, false, Option, none, some, List, [], ◌∷◌, if◌then◌else◌, Text, text_eq,
}
use pyupload_x.Base.Int.{ℤ, pos, negsuc}
use pyupload_x.Errors.{PyException, Result, ok, err, invalid_settings, exception}
use pyupload_x.Ranges.Number.{int_of, decimal}

-- A number that is written with a fraction or an exponent is what `int` cuts it down to; `compound` is
-- an object or a list.
pub data Value : Type 0 where
  null : Value
  truth : Bool → Value
  whole : ℤ → Value
  fraction : ℤ → Value
  infinite not_a_number compound : Value
  text : Text → Value

abbrev pub or_invalid : Option ℤ → Result ℤ
or_invalid none = err invalid_settings
or_invalid (some z) = ok z

-- `_int_field`; the conversion of an infinite number raises what is not caught
unfoldable pub int_field : Value → Result ℤ
unfolding int_of
int_field null = err invalid_settings
int_field (truth false) = ok (pos 0)
int_field (truth true) = ok (pos 1)
int_field (whole z) = ok z
int_field (fraction z) = ok z
int_field infinite = err (exception PyException.overflow_error)
int_field not_a_number = err invalid_settings
int_field compound = err invalid_settings
int_field (text s) = or_invalid (int_of s)

-- `str(value)` of an integer
unfoldable pub str_of : ℤ → Text
unfolding decimal
str_of (pos n) = decimal n
str_of (negsuc n) = b'-' ∷ decimal (suc n)

-- `set_value` of the repository, on the rows
unfoldable pub set_setting : Text → Text → List (Text × Text) → List (Text × Text)
unfolding text_eq
set_setting key value [] = (key, value) ∷ []
set_setting key value ((k, v) ∷ rest) =
    let rest' = set_setting key value rest in
    if text_eq k key then (k, value) ∷ rest else (k, v) ∷ rest'
