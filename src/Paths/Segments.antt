-- ===== src/Paths/Segments.antt =====
-- `text.split(c)` and `"/".join(parts)`, and that they undo one another.
use pyupload_x.Base.{
  ℕ, ◌≡◌, refl, ap, ◌∙◌, ◌≢◌, inl, inr, false, List, [], ◌∷◌, ◌++◌, arith, ◌==◌, if◌then◌else◌,
  Bool-cases, All, contains, Text,
}

-- the first segment grows by a character
abbrev pub grow_head : ℕ → List Text → List Text
grow_head c [] = (c ∷ []) ∷ []
grow_head c (p ∷ ps) = (c ∷ p) ∷ ps

-- `text.split(c)`
unfoldable pub split_on : ℕ → Text → List Text
split_on c [] = [] ∷ []
split_on c (d ∷ s) = let rest = split_on c s in if d == c then [] ∷ rest else grow_head d rest

-- `"/".join(parts)`
unfoldable pub join : List Text → Text
join [] = []
join (p ∷ []) = p
join (p ∷ q ∷ ps) = p ++ b'/' ∷ join (q ∷ ps)

pub split_on-ne-nil : (c : ℕ) (s : Text) → split_on c s ≢ []
unfolding split_on
split_on-ne-nil c [] h = cc
split_on-ne-nil c (d ∷ s) h = ground (arith, split_on-ne-nil c s)

join-grow_head : (d : ℕ) (ps : List Text) → ps ≢ [] → join (grow_head d ps) ≡ d ∷ join ps
unfolding join
join-grow_head d [] h = absurd (h refl)
join-grow_head d (p ∷ []) h = refl
join-grow_head d (p ∷ q ∷ ps) h = refl

join-nil_cons : (ps : List Text) → ps ≢ [] → join ([] ∷ ps) ≡ b'/' ∷ join ps
unfolding join
join-nil_cons [] h = absurd (h refl)
join-nil_cons (p ∷ ps) h = refl

pub join-split_on : (s : Text) → join (split_on b'/' s) ≡ s
unfolding split_on
join-split_on [] = unfold join in refl
join-split_on (d ∷ s) = elim (Bool-cases (d == b'/')) [
  | inl e ↦ ground (arith, join-split_on s, join-nil_cons (split_on b'/' s), split_on-ne-nil b'/' s)
  | inr e ↦
      ground (arith, join-split_on s, join-grow_head d (split_on b'/' s), split_on-ne-nil b'/' s)
]

pub split_on-solid : (c : ℕ) (p : Text) → contains c p ≡ false → split_on c p ≡ p ∷ []
unfolding split_on
split_on-solid c [] h = refl
split_on-solid c (d ∷ p) h = ground (arith, split_on-solid c p)

pub split_on-append :
    (c : ℕ) (p s : Text) → contains c p ≡ false → split_on c (p ++ c ∷ s) ≡ p ∷ split_on c s
unfolding split_on
split_on-append c [] s h = ground arith
split_on-append c (d ∷ p) s h = ground (arith, split_on-append c p s)

-- no segment has a slash in it
abbrev pub AllSolid : List Text → Type 0
AllSolid ps = All (λ p. contains b'/' p ≡ false) ps

pub split_on-join : (ps : List Text) → ps ≢ [] → AllSolid ps → split_on b'/' (join ps) ≡ ps
unfolding join
split_on-join [] h k = absurd (h refl)
split_on-join (p ∷ []) h k = split_on-solid b'/' p k.0
split_on-join (p ∷ q ∷ ps) h k =
    split_on-append b'/' p (join (q ∷ ps)) k.0
    ∙ ap (λ r. p ∷ r) (split_on-join (q ∷ ps) (λ e. cc) k.1)

AllSolid-grow_head :
    (d : ℕ) (ps : List Text) → (d == b'/') ≡ false → AllSolid ps → AllSolid (grow_head d ps)
AllSolid-grow_head d [] h k = ground arith
AllSolid-grow_head d (p ∷ ps) h k = ground arith

pub AllSolid-split_on : (s : Text) → AllSolid (split_on b'/' s)
unfolding split_on
AllSolid-split_on [] = (refl, tt)
AllSolid-split_on (d ∷ s) = elim (Bool-cases (d == b'/')) [
  | inl e ↦ rw e (refl, AllSolid-split_on s)
  | inr e ↦ rw e (AllSolid-grow_head d (split_on b'/' s) e (AllSolid-split_on s))
]
