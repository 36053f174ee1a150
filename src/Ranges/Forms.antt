-- ===== src/Ranges/Forms.antt =====
-- app/core/ranges.py against the three forms of a byte range in RFC 7233, as they are printed.
use pyupload_x.Base.{
  ℕ, ◌-◌, ◌≤◌, min, ◌≡◌, refl, ap, ◌∙◌, Bool, true, false, ◌&&◌, Option, none, some, [], ◌∷◌, ◌++◌,
  arith, ltb, leb, if◌then◌else◌, length, any, all, contains, Text, codes, starts_with,
}
use pyupload_x.Base.Int.{ℤ, pos, ◌-ℤ◌}
use pyupload_x.Errors.{Result, ok, err, range_not_satisfiable}
use pyupload_x.Ranges.Number.{is_digit, is_space, int_of, decimal, max_digits}
use pyupload_x.Ranges.Decimal.{strip-solid, any-digits, int_of-decimal, digits-decimal}
use pyupload_x.Ranges.{
  ByteRange, split_once, pair_bounds, end_bound, suffix_bounds, range_of_bounds, bounds_of,
  satisfiable, range_of_spec, parse_byte_range,
}

-- `first-last`, `first-` and `-count`
pub data RangeForm : Type 0 where
  between : ℕ → ℕ → RangeForm
  onward : ℕ → RangeForm
  suffix : ℕ → RangeForm

abbrev pub print_form : RangeForm → Text
print_form (between a b) = decimal a ++ b'-' ∷ decimal b
print_form (onward a) = decimal a ++ b'-' ∷ []
print_form (suffix n) = b'-' ∷ decimal n

-- The bytes that a form stands for in a file of `size` bytes: the first and the last.
abbrev pub resolve : RangeForm → ℕ → Option (ℕ × ℕ)
resolve (between a b) size = if ltb a size && leb a b then some (a, min b (size - 1)) else none
resolve (onward a) size = if ltb a size then some (a, size - 1) else none
resolve (suffix n) size = if ltb 0 n && ltb 0 size then some (size - n, size - 1) else none

abbrev pub served : Option (ℕ × ℕ) → Result (Option ByteRange)
served none = err range_not_satisfiable
served (some (a, b)) = ok (some (record { start = pos a; end = pos b }))

-- every number of the form has at most 4300 digits
abbrev pub IsPrintable : RangeForm → Type 0
IsPrintable (between a b) = (length (decimal a) ≤ max_digits) × (length (decimal b) ≤ max_digits)
IsPrintable (onward a) = length (decimal a) ≤ max_digits
IsPrintable (suffix n) = length (decimal n) ≤ max_digits

contains-digits :
    (c : ℕ) (s t : Text)
    → is_digit c ≡ false
    → all is_digit s ≡ true
    → contains c t ≡ false
    → contains c (s ++ t) ≡ false
contains-digits c [] t h d k = k
contains-digits c (x ∷ s) t h d k = ground (arith, contains-digits c s t h)

split_once-digits :
    (s t : Text) → all is_digit s ≡ true → split_once b'-' (s ++ b'-' ∷ t) ≡ some (s, t)
unfolding split_once
split_once-digits [] t h = refl
split_once-digits (c ∷ s) t h = ground (arith, split_once-digits s t)

any-append :
    (p : ℕ → Bool) (s t : Text) → any p s ≡ false → any p t ≡ false → any p (s ++ t) ≡ false
any-append p [] t h k = k
any-append p (c ∷ s) t h k = ground (arith, any-append p s t)

bounds_of-int :
    (a b : Text) (size : ℕ) {z : ℤ}
    → int_of a ≡ some z
    → bounds_of a b size ≡ pair_bounds (some z) (end_bound b size)
bounds_of-int [] b size h = unfold int_of in cc
bounds_of-int (c ∷ a) b size h = unfold bounds_of in rw h

end_bound-int : (b : Text) (size : ℕ) {z : ℤ} → int_of b ≡ some z → end_bound b size ≡ some z
end_bound-int [] size h = unfold int_of in cc
end_bound-int (c ∷ b) size h = h

no_comma : (t : Text) → all is_digit t ≡ true → contains b',' t ≡ false
no_comma [] h = refl
no_comma (c ∷ t) h = ground (arith, no_comma t)

module _ (size : ℕ) where
  bounds_served :
      (a b : ℕ)
      → satisfiable (pos a) (pos b) size
        ≡ served (if ltb a size && leb a b then some (a, min b (size - 1)) else none)
  unfolding satisfiable ◌-ℤ◌
  bounds_served a b = ground arith

  spec_of-split :
      (s t : Text)
      → all is_digit s ≡ true
      → all is_digit t ≡ true
      → range_of_spec (s ++ b'-' ∷ t) size ≡ range_of_bounds (bounds_of s t size) size
  unfolding range_of_spec
  spec_of-split s t h k =
      rw (contains-digits b',' s (b'-' ∷ t) refl h (no_comma t k)) (rw (split_once-digits s t h))

  onward_served :
      (a : ℕ)
      → range_of_bounds (some (pos a, pos size -ℤ pos 1)) size ≡ served (resolve (onward a) size)
  unfolding satisfiable ◌-ℤ◌
  onward_served a = ground arith

  suffix_served :
      (n : ℕ)
      → range_of_bounds (suffix_bounds (some (pos n)) size) size ≡ served (resolve (suffix n) size)
  unfolding satisfiable ◌-ℤ◌
  suffix_served n = ground arith

  suffix_bounds_of :
      (n : ℕ)
      → length (decimal n) ≤ max_digits
      → bounds_of [] (decimal n) size ≡ suffix_bounds (some (pos n)) size
  unfolding bounds_of
  suffix_bounds_of n h = ap (λ o. suffix_bounds o size) (int_of-decimal n h)

  range_of_spec-form :
      (f : RangeForm) → IsPrintable f → range_of_spec (print_form f) size ≡ served (resolve f size)
  range_of_spec-form (between a b) h =
      spec_of-split (decimal a) (decimal b) (digits-decimal a) (digits-decimal b)
      ∙ ap (λ o. range_of_bounds o size)
          (bounds_of-int (decimal a) (decimal b) size (int_of-decimal a h.0)
            ∙ ap (pair_bounds (some (pos a)))
                (end_bound-int (decimal b) size (int_of-decimal b h.1)))
      ∙ bounds_served a b
  range_of_spec-form (onward a) h =
      spec_of-split (decimal a) [] (digits-decimal a) refl
      ∙ ap (λ o. range_of_bounds o size) (bounds_of-int (decimal a) [] size (int_of-decimal a h))
      ∙ onward_served a
  range_of_spec-form (suffix n) h =
      spec_of-split [] (decimal n) refl (digits-decimal n)
      ∙ ap (λ o. range_of_bounds o size) (suffix_bounds_of n h)
      ∙ suffix_served n

solid-form : (f : RangeForm) → any is_space (print_form f) ≡ false
unfolding is_space
solid-form (between a b) =
    any-append is_space (decimal a) (b'-' ∷ decimal b) (any-digits (decimal a) (digits-decimal a))
      (any-digits (decimal b) (digits-decimal b))
solid-form (onward a) =
    any-append is_space (decimal a) (b'-' ∷ []) (any-digits (decimal a) (digits-decimal a)) refl
solid-form (suffix n) = any-digits (decimal n) (digits-decimal n)

-- On a header that prints one of the three forms of RFC 7233 with numbers of at most 4300 digits,
-- the parser answers exactly what the form stands for in a file of `size` bytes: the bytes from
-- the first to the smaller of the last and the end of the file, from the first to the end, or the
-- final `count` bytes; and it refuses the form (416) where that is no byte at all.
pub parse_byte_range-form :
    (f : RangeForm) (size : ℕ)
    → IsPrintable f
    → parse_byte_range (some (codes "bytes=" ++ print_form f)) size ≡ served (resolve f size)
unfolding parse_byte_range starts_with
parse_byte_range-form f size h =
    rw (strip-solid (print_form f) (solid-form f)) (range_of_spec-form size f h)
