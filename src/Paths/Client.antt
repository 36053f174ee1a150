-- ===== src/Paths/Client.antt =====
-- sdk/pyuploadx/paths.py against app/directory_upload/paths.py, which it is meant to mirror.
use pyupload_x.Base.{
  ℕ, ◌≡◌, sym, subst, ◌↔◌, inl, inr, Bool, false, List, [], ◌∷◌, map, arith, Bool-cases, any, All,
  contains, Text,
}
use pyupload_x.Errors.{ok, Result-cases, raise_if-eq-ok}
use pyupload_x.Paths.Segments.{split_on}
use pyupload_x.Paths.Safety.{IsSafeSegment, normalize_posix-safe}
use pyupload_x.Paths.Normal.Pieces.{control-zero}
use pyupload_x.Paths.{
  is_control, to_slash, is_skipped, is_parent, is_unsafe, keep_parts, normalize_posix,
  normalize_relative_path, normalize_in_client,
}

abbrev nothing : Text → Bool
nothing p = false

keep_parts-forward :
    (ps qs : List Text) → keep_parts is_unsafe ps ≡ ok qs → keep_parts nothing ps ≡ ok qs
unfolding keep_parts
keep_parts-forward [] qs h = h
keep_parts-forward (p ∷ ps) qs h = elim (Result-cases (keep_parts is_unsafe ps)) [
  | inr (e, f) ↦ ground arith
  | inl (rs, f) ↦ ground (arith, keep_parts-forward ps rs f)
]

keep_parts-backward :
    (ps qs : List Text)
    → keep_parts nothing ps ≡ ok qs
    → All (λ p. is_unsafe p ≡ false) qs
    → keep_parts is_unsafe ps ≡ ok qs
unfolding keep_parts
keep_parts-backward [] qs h k = h
keep_parts-backward (p ∷ ps) qs h k = elim (Bool-cases (is_skipped p)) [
  | inl skipped ↦ ground (arith, keep_parts-backward ps qs)
  | inr kept ↦ elim (Bool-cases (is_parent p)) [
    | inl parent ↦ ground arith
    | inr fine ↦ elim (Result-cases (keep_parts nothing ps)) [
      | inr (e, f) ↦ ground arith
      | inl (rs, f) ↦
          let same : p ∷ rs ≡ qs = ground arith in
          let k' = subst (All (λ p. is_unsafe p ≡ false)) (sym same) k in
          ground (arith, keep_parts-backward ps rs f k'.1, k'.0)
    ]
  ]
]

All-not_refused :
    (ps : List Text) → All (IsSafeSegment is_unsafe) ps → All (λ p. is_unsafe p ≡ false) ps
All-not_refused [] h = tt
All-not_refused (p ∷ ps) h = (h.0.not_refused, All-not_refused ps h.1)

module _ (d b : ℕ) (path q : Text) where
  posix-forward :
      normalize_posix is_unsafe d b path ≡ ok q → normalize_posix nothing d b path ≡ ok q
  unfolding normalize_posix
  posix-forward h = elim (Result-cases (keep_parts is_unsafe (split_on b'/' path))) [
    | inr (e, f) ↦ ground arith
    | inl (ps, f) ↦ ground (arith, keep_parts-forward (split_on b'/' path) ps f)
  ]

  -- the loop is the only place where the two differ
  same_parts :
      (ps : List Text)
      → keep_parts nothing (split_on b'/' path) ≡ ok ps
      → keep_parts is_unsafe (split_on b'/' path) ≡ ok ps
      → normalize_posix nothing d b path ≡ ok q
      → normalize_posix is_unsafe d b path ≡ ok q
  unfolding normalize_posix
  same_parts ps f g h = ground arith

  posix-backward :
      normalize_posix nothing d b path ≡ ok q
      → All (λ p. is_unsafe p ≡ false) (split_on b'/' q)
      → normalize_posix is_unsafe d b path ≡ ok q
  posix-backward h k =
      let (ps, kept, _, split) = normalize_posix-safe nothing d b path q h in
      let kept' =
        keep_parts-backward (split_on b'/' path) ps kept
          (subst (All (λ p. is_unsafe p ≡ false)) split k) in
      same_parts ps kept kept' h

-- The server accepts a path exactly when the client does, with the same result, and besides the
-- path has no control character and no segment of the result is one of those refused.
pub server-iff-client :
    (nfc : Text → Text) (d b : ℕ) (raw q : Text)
    → (normalize_relative_path nfc d b raw ≡ ok q) ↔ (
        (normalize_in_client nfc d b raw ≡ ok q)
        × (any is_control raw ≡ false)
        × All (λ p. is_unsafe p ≡ false) (split_on b'/' q))
unfolding normalize_relative_path normalize_in_client
server-iff-client nfc d b raw q = (
  λ h.
      let (_, h') = raise_if-eq-ok (contains 0 raw) _ _ h in
      let (printable, h'') = raise_if-eq-ok (any is_control raw) _ _ h' in
      let (_, _, safe, _) = normalize_posix-safe is_unsafe d b (nfc (map to_slash raw)) q h'' in
      (
        posix-forward d b (nfc (map to_slash raw)) q h'',
        printable,
        All-not_refused _ safe.segments,
      ),
  λ h. rw (control-zero raw h.1) (rw h.1 (posix-backward d b (nfc (map to_slash raw)) q h.0 h.2)),
)
