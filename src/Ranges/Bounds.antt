-- ===== src/Ranges/Bounds.antt =====
-- app/core/ranges.py: where the bytes that a Range header selects lie.
use pyupload_x.Base.{
  ℕ, ◌≡◌, inl, inr, false, some, [], ◌∷◌, arith, Option-cases, drop, contains, Text,
}
use pyupload_x.Base.Int.{ℤ, pos, ◌-ℤ◌, ◌≤ℤ◌}
use pyupload_x.Errors.{ok}
use pyupload_x.Ranges.Number.{lstrip, rstrip, strip, signed, int_of, cons_unless_blank}
use pyupload_x.Ranges.{
  ByteRange, range_length, split_once, bounds_of, satisfiable, range_of_spec, parse_byte_range,
}

contains-lstrip : (c : ℕ) (s : Text) → contains c s ≡ false → contains c (lstrip s) ≡ false
unfolding lstrip
contains-lstrip c [] h = h
contains-lstrip c (d ∷ s) h = ground (arith, contains-lstrip c s)

contains-cons_unless_blank :
    (c d : ℕ) (s : Text) → contains c (d ∷ s) ≡ false → contains c (cons_unless_blank d s) ≡ false
contains-cons_unless_blank c d [] h = ground arith
contains-cons_unless_blank c d (e ∷ s) h = h

contains-rstrip : (c : ℕ) (s : Text) → contains c s ≡ false → contains c (rstrip s) ≡ false
unfolding rstrip
contains-rstrip c [] h = h
contains-rstrip c (d ∷ s) h =
    contains-cons_unless_blank c d (rstrip s) (ground (arith, contains-rstrip c s))

-- a text with no minus sign is no negative number
signed_nonneg : (s : Text) (z : ℤ) → contains b'-' s ≡ false → signed s ≡ some z → pos 0 ≤ℤ z
unfolding signed
signed_nonneg [] z h e = cc
signed_nonneg (c ∷ s) z h e = ground arith

int_of_nonneg : (s : Text) (z : ℤ) → contains b'-' s ≡ false → int_of s ≡ some z → pos 0 ≤ℤ z
unfolding int_of strip
int_of_nonneg s z h =
    signed_nonneg (strip s) z (contains-rstrip b'-' (lstrip s) (contains-lstrip b'-' s h))

split_once-contains : (c : ℕ) (s a b : Text) → split_once c s ≡ some (a, b) → contains c a ≡ false
unfolding split_once
split_once-contains c [] a b h = cc
split_once-contains c (d ∷ s) a b h = elim (Option-cases (split_once c s)) [
  | inl e ↦ ground arith
  | inr (p, e) ↦ ground (arith, split_once-contains c s p.0 p.1)
]

-- what a byte range must satisfy to be served from `size` bytes
pub record IsWithin (r : ByteRange) (size : ℕ) : Type 0 where
  pub starts : pos 0 ≤ℤ r.start
  pub ordered : r.start ≤ℤ r.end
  pub ends : r.end ≤ℤ pos size -ℤ pos 1
  pub fits : range_length r ≤ℤ pos size

satisfiable-IsWithin :
    (start end : ℤ) (size : ℕ) (r : ByteRange)
    → pos 0 ≤ℤ start
    → satisfiable start end size ≡ ok (some r)
    → IsWithin r size
unfolding satisfiable range_length ◌-ℤ◌
satisfiable-IsWithin start end size r h e = record {
  starts = ground arith;
  ordered = ground arith;
  ends = ground arith;
  fits = ground arith;
}

bounds_of_nonneg :
    (a b : Text) (size : ℕ) (s e : ℤ)
    → contains b'-' a ≡ false
    → bounds_of a b size ≡ some (s, e)
    → pos 0 ≤ℤ s
unfolding bounds_of ◌-ℤ◌
bounds_of_nonneg [] b size s e h p = ground arith
bounds_of_nonneg (c ∷ a) b size s e h p = ground (arith, int_of_nonneg (c ∷ a) s h)

range_of_spec-IsWithin :
    (spec : Text) (size : ℕ) (r : ByteRange)
    → range_of_spec spec size ≡ ok (some r)
    → IsWithin r size
unfolding range_of_spec
range_of_spec-IsWithin spec size r h = elim (Option-cases (split_once b'-' spec)) [
  | inl e ↦ ground arith
  | inr ((a, b), e) ↦ elim (Option-cases (bounds_of a b size)) [
    | inl f ↦ ground arith
    | inr ((start, end), f) ↦
        satisfiable-IsWithin start end size r
          (bounds_of_nonneg a b size start end (split_once-contains b'-' spec a b e) f)
          (ground arith)
  ]
]

-- A Range header that is accepted selects a non-empty range of existing bytes: it starts at or
-- after the first byte, does not end before it starts, ends at the last byte or before it, and is
-- no longer than the file.
pub parse_byte_range-IsWithin :
    (header : Text) (size : ℕ) (r : ByteRange)
    → parse_byte_range (some header) size ≡ ok (some r)
    → IsWithin r size
unfolding parse_byte_range
parse_byte_range-IsWithin header size r h =
    range_of_spec-IsWithin (strip (drop 6 header)) size r (ground arith)
