-- ===== src/Ranges/Decimal.antt =====
-- `int` reads back what `str` prints.
use pyupload_x.Base.{
  ℕ, zero, suc, ◌+◌, ◌*◌, ◌/◌, ◌%◌, ◌≤◌, ◌<◌, ◌≡◌, refl, ◌∙◌, inl, inr, Bool, true, false, some, [],
  ◌∷◌, arith, ltb, if◌then◌else◌, Bool-cases, length, any, all, Text, leb, none, ap,
}
use pyupload_x.Base.Int.{pos}
use pyupload_x.Ranges.Number.{
  is_space, is_digit, lstrip, rstrip, strip, signed, unsigned, negated, digits_from, decimal_onto,
  decimal, int_of, max_digits,
}

digit-not_space : (c : ℕ) → is_digit c ≡ true → is_space c ≡ false
unfolding is_space
digit-not_space c h = ground arith

lstrip-solid : (s : Text) → any is_space s ≡ false → lstrip s ≡ s
unfolding lstrip
lstrip-solid [] h = refl
lstrip-solid (c ∷ s) h = ground arith

rstrip-solid : (s : Text) → any is_space s ≡ false → rstrip s ≡ s
unfolding rstrip
rstrip-solid [] h = refl
rstrip-solid (c ∷ []) h = ground arith
rstrip-solid (c ∷ d ∷ s) h = rw (rstrip-solid (d ∷ s) (ground arith))

-- a text with no space in it has none to strip
pub strip-solid : (s : Text) → any is_space s ≡ false → strip s ≡ s
unfolding strip
strip-solid s h = rw (lstrip-solid s h) (rstrip-solid s h)

pub any-digits : (s : Text) → all is_digit s ≡ true → any is_space s ≡ false
any-digits [] h = refl
any-digits (c ∷ s) h = ground (arith, digit-not_space c, any-digits s)

strip-digits : (s : Text) → all is_digit s ≡ true → strip s ≡ s
strip-digits s h = strip-solid s (any-digits s h)

pub all-decimal_onto :
    (f n : ℕ) (s : Text) → all is_digit s ≡ true → all is_digit (decimal_onto f n s) ≡ true
unfolding decimal_onto
all-decimal_onto zero n s h = h
all-decimal_onto (suc f) n s h = ground (arith, all-decimal_onto f (n / 10) ((48 + n % 10) ∷ s))

-- the digits of a number, counted
width : ℕ → ℕ → ℕ
width zero n = 0
width (suc f) n = let rest = width f (n / 10) in if ltb n 10 then 1 else rest + 1

length-decimal_onto : (f n : ℕ) (s : Text) → length (decimal_onto f n s) ≡ width f n + length s
unfolding decimal_onto width
length-decimal_onto zero n s = omega arith
length-decimal_onto (suc f) n s = ground (arith, length-decimal_onto f (n / 10) ((48 + n % 10) ∷ s))

digits_from-digit :
    (acc k d : ℕ) (after : Bool) (s : Text)
    → d < 10
    → digits_from acc k after ((48 + d) ∷ s) ≡ digits_from (acc * 10 + d) (k + 1) true s
unfolding digits_from
digits_from-digit acc k d after s h = ground arith

-- reading what was printed in front of `s` leaves the number read, and `s` to read
digits_from-decimal_onto :
    (f n : ℕ) (s : Text)
    → n < f
    → digits_from 0 0 false (decimal_onto f n s) ≡ digits_from n (width f n) true s
unfolding decimal_onto width
digits_from-decimal_onto zero n s h = absurd (omega arith)
digits_from-decimal_onto (suc f) n s h = elim (Bool-cases (ltb n 10)) [
  | inl small ↦ ground (arith, digits_from-digit 0 0 n false s)
  | inr large ↦ ground (
    arith,
    digits_from-decimal_onto f (n / 10) ((48 + n % 10) ∷ s),
    digits_from-digit (n / 10) (width f (n / 10)) (n % 10) true s,
  )
]

signed-digits : (s : Text) → all is_digit s ≡ true → signed s ≡ unsigned (digits_from 0 0 false s)
unfolding signed digits_from
signed-digits [] h = refl
signed-digits (c ∷ s) h = ground arith

-- `int` of digits, and of digits behind a minus sign
pub int_of-digits :
    (s : Text) → all is_digit s ≡ true → int_of s ≡ unsigned (digits_from 0 0 false s)
unfolding int_of
int_of-digits s h = rw (strip-digits s h) (signed-digits s h)

pub int_of-minus :
    (s : Text) → all is_digit s ≡ true → int_of (b'-' ∷ s) ≡ negated (digits_from 0 0 false s)
unfolding int_of signed is_space
int_of-minus s h = rw (strip-solid (b'-' ∷ s) (ground (arith, any-digits s h))) refl

-- The digits of a number are read as the number, unless there are too many of them.
pub digits_from-decimal :
    (n : ℕ)
    → digits_from 0 0 false (decimal n)
      ≡ (if leb (length (decimal n)) max_digits then some n else none)
unfolding decimal
digits_from-decimal n =
    digits_from-decimal_onto (suc n) n [] (omega arith)
    ∙ counted (width (suc n) n) (length (decimal n)) n
        (omega (arith, length-decimal_onto (suc n) n []))
  where
    counted :
        (k l m : ℕ) → l ≡ k → digits_from m k true [] ≡ (if leb l max_digits then some m else none)
    counted k l m same = unfold digits_from in ground arith

pub digits-decimal : (n : ℕ) → all is_digit (decimal n) ≡ true
unfolding decimal
digits-decimal n = all-decimal_onto (suc n) n [] refl

-- A natural number of at most 4300 digits is read back from its decimal form.
pub int_of-decimal : (n : ℕ) → length (decimal n) ≤ max_digits → int_of (decimal n) ≡ some (pos n)
int_of-decimal n h =
    int_of-digits (decimal n) (digits-decimal n)
    ∙ ap unsigned {y = some n} (digits_from-decimal n ∙ ground arith)
