-- ===== src/Paths/Safety.antt =====
-- app/directory_upload/paths.py: what every accepted path satisfies.
use pyupload_x.Base.{
  ℕ, ◌≤◌, ◌≡◌, subst, ◌≢◌, inl, inr, Bool, false, ◌||◌, List, [], ◌∷◌, map, arith, ltb, ltb→le,
  Bool-cases, length, any, All, contains, Text, codes, text_eq_iff, starts_with, utf8_length,
}
use pyupload_x.Errors.{ok, ok-injective, Result-cases, raise_if-eq-ok, >>=-eq-ok}
use pyupload_x.Paths.Segments.{split_on, join, split_on-join, AllSolid, AllSolid-split_on}
use pyupload_x.Paths.{
  is_control, to_slash, is_drive, is_skipped, is_parent, is_unsafe, is_empty, keep_parts,
  bounded_path, normalize_posix, normalize_relative_path,
}

-- a segment that names something below its directory
pub record IsSafeSegment (refuse : Text → Bool) (p : Text) : Type 0 where
  pub solid : contains b'/' p ≡ false
  pub named : p ≢ []
  pub not_self : p ≢ codes "."
  pub not_parent : p ≢ codes ".."
  pub not_refused : refuse p ≡ false

pub record IsSafePath (refuse : Text → Bool) (maximum_depth maximum_bytes : ℕ) (q : Text)
    : Type 0 where
  pub segments : All (IsSafeSegment refuse) (split_on b'/' q)
  pub depth : length (split_on b'/' q) ≤ maximum_depth
  pub bytes : utf8_length q ≤ maximum_bytes

module _ (refuse : Text → Bool) where
  IsSafeSegment-kept :
      (p : Text)
      → contains b'/' p ≡ false
      → is_skipped p ≡ false
      → (is_parent p || refuse p) ≡ false
      → IsSafeSegment refuse p
  IsSafeSegment-kept p solid s r = record {
    solid = solid;
    named = λ e. ground (arith, text_eq_iff p []);
    not_self = λ e. ground (arith, text_eq_iff p (codes "."));
    not_parent = λ e. ground (arith, text_eq_iff p (codes ".."));
    not_refused = ground arith;
  }

  pub keep_parts-safe :
      (ps qs : List Text)
      → AllSolid ps
      → keep_parts refuse ps ≡ ok qs
      → All (IsSafeSegment refuse) qs
  unfolding keep_parts
  keep_parts-safe [] qs h e = subst (All (IsSafeSegment refuse)) (ok-injective e) tt
  keep_parts-safe (p ∷ ps) qs h e = elim (Bool-cases (is_skipped p)) [
    | inl skipped ↦ keep_parts-safe ps qs h.1 (ground arith)
    | inr kept ↦ elim (Bool-cases (is_parent p || refuse p)) [
      | inl refused ↦ ground arith
      | inr fine ↦ elim (Result-cases (keep_parts refuse ps)) [
        | inr (x, f) ↦ ground arith
        | inl (rs, f) ↦
            subst (All (IsSafeSegment refuse)) {x = p ∷ rs} (ground arith)
              (IsSafeSegment-kept p h.0 kept fine, keep_parts-safe ps rs h.1 f)
      ]
    ]
  ]

  AllSolid-safe : (ps : List Text) → All (IsSafeSegment refuse) ps → AllSolid ps
  AllSolid-safe [] h = tt
  AllSolid-safe (p ∷ ps) h = (h.0.solid, AllSolid-safe ps h.1)

  join-nonempty : (ps : List Text) → is_empty (join ps) ≡ false → ps ≢ []
  unfolding join
  join-nonempty [] h e = cc
  join-nonempty (p ∷ ps) h e = cc

  -- what the checks after the loop establish
  pub bounded_path-safe :
      (d b : ℕ) (ps : List Text) (q : Text)
      → All (IsSafeSegment refuse) ps
      → bounded_path d b ps ≡ ok q
      → IsSafePath refuse d b q × (split_on b'/' q ≡ ps)
  unfolding bounded_path
  bounded_path-safe d b ps q h e =
      let (present, e') = raise_if-eq-ok (is_empty (join ps)) _ _ e in
      let (shallow, e'') = raise_if-eq-ok (ltb d (length ps)) _ _ e' in
      let (short, same) = raise_if-eq-ok (ltb b (utf8_length (join ps))) _ _ e'' in
      let split : split_on b'/' (join ps) ≡ ps =
        split_on-join ps (join-nonempty ps present) (AllSolid-safe ps h) in
      rw (← ok-injective same) (
        record {
          segments = rw split h;
          depth = rw split (ltb→le d (length ps) shallow);
          bytes = ltb→le b _ short;
        },
        split,
      )

  pub normalize_posix-safe :
      (d b : ℕ) (path q : Text)
      → normalize_posix refuse d b path ≡ ok q
      → (ps : List Text) × (keep_parts refuse (split_on b'/' path) ≡ ok ps)
        × IsSafePath refuse d b q
        × (split_on b'/' q ≡ ps)
  unfolding normalize_posix
  normalize_posix-safe d b path q h =
      let (relative, h') = raise_if-eq-ok (starts_with (codes "/") path) _ _ h in
      let (no_drive, h'') = raise_if-eq-ok (is_drive path) _ _ h' in
      let (ps, kept, bounded) = >>=-eq-ok (keep_parts refuse (split_on b'/' path)) _ h'' in
      let (safe, split) =
        bounded_path-safe d b ps q
          (keep_parts-safe (split_on b'/' path) ps (AllSolid-split_on path) kept) bounded in
      (ps, kept, safe, split)

-- Whatever Unicode normalisation does, a path that the server accepts splits at its slashes into
-- segments that are not empty, not `.` or `..` and not one of the refused ones; it has at most
-- `maximum_depth` of them, and at most `maximum_bytes` bytes in UTF-8.
pub normalize_relative_path-IsSafePath :
    (nfc : Text → Text) (d b : ℕ) (raw q : Text)
    → normalize_relative_path nfc d b raw ≡ ok q
    → IsSafePath is_unsafe d b q
unfolding normalize_relative_path
normalize_relative_path-IsSafePath nfc d b raw q h =
    let (a, h') = raise_if-eq-ok (contains 0 raw) _ _ h in
    let (a', h'') = raise_if-eq-ok (any is_control raw) _ _ h' in
    (normalize_posix-safe is_unsafe d b (nfc (map to_slash raw)) q h'').2
