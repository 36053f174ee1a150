-- ===== src/Paths/Normal/Pieces.antt =====
-- app/directory_upload/paths.py: what keeping, joining and mapping the parts of a path leave true of
-- them.
use pyupload_x.Base.{
  ℕ, ◌≡◌, refl, subst, inl, inr, Bool, false, ◌||◌, List, [], ◌∷◌, ◌++◌, map, arith, ◌==◌,
  Bool-cases, any, All, contains, Text, codes, text_eq_iff, starts_with,
}
use pyupload_x.Errors.{ok, ok-injective, Result-cases}
use pyupload_x.Paths.Segments.{split_on, join, grow_head}
use pyupload_x.Paths.Safety.{IsSafeSegment}
use pyupload_x.Paths.{is_control, to_slash, is_skipped, is_parent, keep_parts}

-- the characters that a path may not contain once it is normalised
abbrev pub is_inert : ℕ → Bool
is_inert c = is_control c || (c == b'\\')

pub keep_parts-sublist :
    (refuse : Text → Bool) (P : Text → Type 0) (ps qs : List Text)
    → All P ps
    → keep_parts refuse ps ≡ ok qs
    → All P qs
unfolding keep_parts
keep_parts-sublist refuse P [] qs h e = subst (All P) (ok-injective e) tt
keep_parts-sublist refuse P (p ∷ ps) qs h e = elim (Bool-cases (is_skipped p)) [
  | inl skipped ↦ keep_parts-sublist refuse P ps qs h.1 (ground arith)
  | inr kept ↦ elim (Bool-cases (is_parent p || refuse p)) [
    | inl refused ↦ ground arith
    | inr fine ↦ elim (Result-cases (keep_parts refuse ps)) [
      | inr (x, f) ↦ ground arith
      | inl (rs, f) ↦
          subst (All P) {x = p ∷ rs} (ground arith) (h.0, keep_parts-sublist refuse P ps rs h.1 f)
    ]
  ]
]

pub keep_parts-kept :
    (refuse : Text → Bool) (ps : List Text)
    → All (IsSafeSegment refuse) ps
    → keep_parts refuse ps ≡ ok ps
unfolding keep_parts
keep_parts-kept refuse [] h = refl
keep_parts-kept refuse (p ∷ ps) h = ground (
  arith,
  keep_parts-kept refuse ps h.1,
  text_eq_iff p [],
  text_eq_iff p (codes "."),
  text_eq_iff p (codes ".."),
  h.0.named,
  h.0.not_self,
  h.0.not_parent,
  h.0.not_refused,
)

-- Characters that a text lacks, its segments lack, and the other way round.
module _ (t : ℕ → Bool) where
  pub grow_head-lacks :
      (c : ℕ) (ps : List Text)
      → t c ≡ false
      → All (λ p. any t p ≡ false) ps
      → All (λ p. any t p ≡ false) (grow_head c ps)
  grow_head-lacks c [] h k = ground arith
  grow_head-lacks c (p ∷ ps) h k = ground arith

  pub split_on-lacks : (s : Text) → any t s ≡ false → All (λ p. any t p ≡ false) (split_on b'/' s)
  unfolding split_on
  split_on-lacks [] h = (refl, tt)
  split_on-lacks (c ∷ s) h = elim (Bool-cases (c == b'/')) [
    | inl e ↦ rw e (refl, split_on-lacks s (ground arith))
    | inr e ↦
        rw e (grow_head-lacks c (split_on b'/' s) (ground arith) (split_on-lacks s (ground arith)))
  ]

  pub append-lacks : (a b : Text) → any t a ≡ false → any t b ≡ false → any t (a ++ b) ≡ false
  append-lacks [] b h k = k
  append-lacks (c ∷ a) b h k = ground (arith, append-lacks a b)

  pub join-lacks :
      (ps : List Text) → t b'/' ≡ false → All (λ p. any t p ≡ false) ps → any t (join ps) ≡ false
  unfolding join
  join-lacks [] h k = refl
  join-lacks (p ∷ []) h k = k.0
  join-lacks (p ∷ q ∷ ps) h k =
      append-lacks p (b'/' ∷ join (q ∷ ps)) k.0 (ground (arith, join-lacks (q ∷ ps) h k.1))

pub map-to_slash-lacks :
    (s : Text) → any is_control s ≡ false → any is_inert (map to_slash s) ≡ false
map-to_slash-lacks [] h = refl
map-to_slash-lacks (c ∷ s) h = ground (arith, map-to_slash-lacks s)

pub map-to_slash-inert : (s : Text) → any is_inert s ≡ false → map to_slash s ≡ s
map-to_slash-inert [] h = refl
map-to_slash-inert (c ∷ s) h = ground (arith, map-to_slash-inert s)

pub inert-control : (s : Text) → any is_inert s ≡ false → any is_control s ≡ false
inert-control [] h = refl
inert-control (c ∷ s) h = ground (arith, inert-control s)

pub control-zero : (s : Text) → any is_control s ≡ false → contains 0 s ≡ false
control-zero [] h = refl
control-zero (c ∷ s) h = ground (arith, control-zero s)

pub map-fixed : (f : Text → Text) (ps : List Text) → All (λ p. f p ≡ p) ps → map f ps ≡ ps
map-fixed f [] h = refl
map-fixed f (p ∷ ps) h = cc (h.0, map-fixed f ps h.1)

pub map_idem :
    (f : Text → Text)
    → ((s : Text) → f (f s) ≡ f s)
    → (ps : List Text) → All (λ p. f p ≡ p) (map f ps)
map_idem f h [] = tt
map_idem f h (p ∷ ps) = (h p, map_idem f h ps)

-- a path whose segments are all named does not begin with a slash
pub relative-safe :
    (refuse : Text → Bool) (q : Text)
    → All (IsSafeSegment refuse) (split_on b'/' q)
    → starts_with (codes "/") q ≡ false
unfolding split_on starts_with
relative-safe refuse [] h = refl
relative-safe refuse (c ∷ q) h = elim (Bool-cases (c == b'/')) [
  | inl e ↦
      let h' : All (IsSafeSegment refuse) ([] ∷ split_on b'/' q) = rw e at h in
      absurd (h'.0.named refl)
  | inr e ↦ ground arith
]
