-- ===== src/Base/Counting.antt =====
-- Distinct numbers of a range are at most as many as the range has.
use pyupload_x.Base.{
  ℕ, zero, suc, ◌+◌, ◌≤◌, ◌≡◌, refl, inl, inr, true, false, not, List, [], ◌∷◌, arith, ◌==◌,
  Bool-cases, length, select, All, contains,
}

-- Every number comes once.
abbrev pub AreOnce : List ℕ → Type 0
AreOnce [] = Unit
AreOnce (n ∷ ns) = (contains n ns ≡ false) × AreOnce ns

abbrev without : ℕ → List ℕ → List ℕ
without n ns = select (λ m. not (m == n)) ns

contains-without :
    (m n : ℕ) (ns : List ℕ) → contains m ns ≡ false → contains m (without n ns) ≡ false
contains-without m n [] h = refl
contains-without m n (k ∷ ns) h = ground (arith, contains-without m n ns)

without-AreOnce : (n : ℕ) (ns : List ℕ) → AreOnce ns → AreOnce (without n ns)
without-AreOnce n [] h = tt
without-AreOnce n (k ∷ ns) h = elim (Bool-cases (k == n)) [
  | inl e ↦ rw e (without-AreOnce n ns h.1)
  | inr e ↦ rw e (contains-without k n ns h.0, without-AreOnce n ns h.1)
]

without-absent : (n : ℕ) (ns : List ℕ) → contains n ns ≡ false → without n ns ≡ ns
without-absent n [] h = refl
without-absent n (k ∷ ns) h = ground (arith, without-absent n ns)

length-without : (n : ℕ) (ns : List ℕ) → AreOnce ns → length ns ≤ length (without n ns) + 1
length-without n [] h = omega arith
length-without n (k ∷ ns) h = elim (Bool-cases (k == n)) [
  | inl e ↦ rw e (
      let same : k ≡ n = ground arith in
      let absent : contains n ns ≡ false = ground (arith, h.0) in
      rw (without-absent n ns absent) (omega arith))
  | inr e ↦ rw e (omega (arith, length-without n ns h.1))
]

-- all numbers are from `1` to `top`
abbrev pub AreUpTo : ℕ → List ℕ → Type 0
AreUpTo top ns = All (λ n. (1 ≤ n) × (n ≤ top)) ns

without-AreUpTo :
    (top : ℕ) (ns : List ℕ) → AreUpTo (suc top) ns → AreUpTo top (without (suc top) ns)
without-AreUpTo top [] h = tt
without-AreUpTo top (k ∷ ns) h = elim (Bool-cases (k == suc top)) [
  | inl e ↦ rw e (without-AreUpTo top ns h.1)
  | inr e ↦ rw e (ground (arith, h.0), without-AreUpTo top ns h.1)
]

length-AreUpTo : (top : ℕ) (ns : List ℕ) → AreOnce ns → AreUpTo top ns → length ns ≤ top
length-AreUpTo zero [] once h = omega arith
length-AreUpTo zero (n ∷ ns) once h = absurd (omega (arith, h.0))
length-AreUpTo (suc top) ns once h = omega (
  arith,
  length-without (suc top) ns once,
  length-AreUpTo top (without (suc top) ns) (without-AreOnce (suc top) ns once)
      (without-AreUpTo top ns h),
)

-- As many distinct numbers as the range has are all of them.
pub contains-all :
    (top n : ℕ) (ns : List ℕ)
    → AreOnce ns
    → AreUpTo top ns
    → top ≤ length ns
    → 1 ≤ n
    → n ≤ top
    → contains n ns ≡ true
contains-all top n ns once h many low high = elim (Bool-cases (contains n ns)) [
  | inl e ↦ e
  | inr e ↦ absurd (omega (arith, length-AreUpTo top (n ∷ ns) (e, once) ((low, high), h)))
]
