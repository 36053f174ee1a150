-- ===== src/Storage/Local/Multipart/Names.antt =====
-- app/storage/local.py: different parts have different files.
use pyupload_x.Base.{
  ℕ, zero, suc, ◌+◌, ◌-◌, ◌*◌, ◌/◌, ◌%◌, ◌<◌, ◌≡◌, refl, sym, ap, ◌∙◌, inl, inr, true, [], ◌∷◌,
  ◌++◌, arith, ltb, ◌==◌, if◌then◌else◌, ==_iff, ==_refl, Bool-cases, length, Text, codes,
  text_eq_iff,
}
use pyupload_x.Ranges.Number.{decimal, decimal_onto}
use pyupload_x.Storage.FileSystem.{FilePath, path_eq}
use pyupload_x.Storage.FileSystem.Laws.{path_eq_refl}
use pyupload_x.Storage.Local.Paths.{zeros, part_name}

-- The number in front of a point.
number : ℕ → Text → ℕ
number acc [] = acc
number acc (c ∷ s) = if c == b'.' then acc else number (acc * 10 + (c - 48)) s

number-zeros : (k : ℕ) (s : Text) → number 0 (zeros k ++ s) ≡ number 0 s
unfolding number
number-zeros zero s = refl
number-zeros (suc k) s = number-zeros k s

number-digit : (acc d : ℕ) (s : Text) → d < 10 → number acc ((48 + d) ∷ s) ≡ number (acc * 10 + d) s
unfolding number
number-digit acc d s h = ground arith

number-decimal_onto : (f n : ℕ) (s : Text) → n < f → number 0 (decimal_onto f n s) ≡ number n s
unfolding decimal_onto
number-decimal_onto zero n s h = absurd (omega arith)
number-decimal_onto (suc f) n s h = elim (Bool-cases (ltb n 10)) [
  | inl small ↦ ground (arith, number-digit 0 n s)
  | inr large ↦
      ground (
        arith,
        number-decimal_onto f (n / 10) ((48 + n % 10) ∷ s),
        number-digit (n / 10) (n % 10) s,
      )
]

decimal_onto-append : (f n : ℕ) (s t : Text) → decimal_onto f n (s ++ t) ≡ decimal_onto f n s ++ t
unfolding decimal_onto
decimal_onto-append zero n s t = refl
decimal_onto-append (suc f) n s t =
    ground (arith, decimal_onto-append f (n / 10) ((48 + n % 10) ∷ s) t)

number-part_name : (n : ℕ) → number 0 (part_name n) ≡ n
unfolding part_name decimal
number-part_name n =
    number-zeros (8 - length (decimal n)) (decimal n ++ codes ".part")
    ∙ ap (number 0) (sym (decimal_onto-append (suc n) n [] (codes ".part")))
    ∙ number-decimal_onto (suc n) n (codes ".part") (omega arith)
    ∙ unfold number in refl

pub part_name-injective : (m n : ℕ) → part_name m ≡ part_name n → m ≡ n
part_name-injective m n h = sym (number-part_name m) ∙ ap (number 0) h ∙ number-part_name n

-- the file of a part
abbrev pub part_path : FilePath → ℕ → FilePath
part_path dir n = dir ++ part_name n ∷ []

append-cancel :
    (dir : FilePath) (s t : Text) → path_eq (dir ++ s ∷ []) (dir ++ t ∷ []) ≡ true → s ≡ t
unfolding path_eq
append-cancel [] s t h = ground (arith, text_eq_iff s t)
append-cancel (r ∷ dir) s t h = append-cancel dir s t (ground arith)

pub part_path-eq :
    (dir : FilePath) (m n : ℕ) → path_eq (part_path dir m) (part_path dir n) ≡ (m == n)
part_path-eq dir m n = elim (Bool-cases (m == n)) [
  | inl e ↦ rw ((==_iff m n).0 e) (path_eq_refl (part_path dir n) ∙ sym (==_refl n))
  | inr e ↦ elim (Bool-cases (path_eq (part_path dir m) (part_path dir n))) [
    | inl p ↦
        ground (arith, part_name-injective m n (append-cancel dir (part_name m) (part_name n) p))
    | inr p ↦ p ∙ sym e
  ]
]
