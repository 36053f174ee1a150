-- ===== src/Paths/Normal.antt =====
-- app/directory_upload/paths.py: an accepted path is in normal form, but for the paths that hide a
-- drive behind a leading `.`.
pub mod Pieces
use pyupload_x.Base.{
  ℕ, ◌≤◌, ◌≡◌, refl, sym, ap, subst, ◌∙◌, inl, inr, Bool, false, ◌||◌, List, [], ◌∷◌, ◌++◌, map,
  arith, ◌==◌, Bool-cases, any, All, contains, Text, codes, text_eq, text_eq_iff, starts_with,
  utf8_length, ltb, length,
}
use pyupload_x.Errors.{
  ok, err, ok-injective, Result-cases, raise_if-eq-ok, >>=-eq-ok, invalid_relative_path,
}
use pyupload_x.Paths.Segments.{
  split_on, join, join-split_on, split_on-solid, split_on-append, AllSolid-split_on, grow_head,
}
use pyupload_x.Paths.Safety.{IsSafeSegment, IsSafePath, keep_parts-safe, bounded_path-safe}
use pyupload_x.Paths.{
  is_control, to_slash, is_drive, is_skipped, is_parent, is_unsafe, keep_parts, bounded_path,
  normalize_posix, normalize_relative_path, is_empty,
}
use pyupload_x.Paths.Normal.Pieces.{
  is_inert, keep_parts-sublist, keep_parts-kept, map-to_slash-lacks, map-to_slash-inert,
  inert-control, control-zero, map-fixed, map_idem, relative-safe, grow_head-lacks, split_on-lacks,
  append-lacks, join-lacks,
}

-- What is relied on of Unicode normalisation: it is idempotent; a slash neither combines nor
-- decomposes, so that it works segment by segment; and it makes no control character or backslash.
pub record NfcLaws (nfc : Text → Text) : Type 0 where
  pub idem : (s : Text) → nfc (nfc s) ≡ nfc s
  pub split : (s : Text) → split_on b'/' (nfc s) ≡ map nfc (split_on b'/' s)
  pub inert : (s : Text) → any is_inert s ≡ false → any is_inert (nfc s) ≡ false

module _ (nfc : Text → Text) (laws : NfcLaws nfc) (d b : ℕ) (raw q : Text) where
  -- what is known of an accepted path
  record Accepted : Type 0 where
    parts : List Text
    safe : IsSafePath is_unsafe d b q
    split : split_on b'/' q ≡ parts
    inert : any is_inert q ≡ false
    fixed : nfc q ≡ q
    bounded : bounded_path d b parts ≡ ok q

  fixed_of_parts : All (λ p. nfc p ≡ p) (split_on b'/' q) → nfc q ≡ q
  fixed_of_parts h =
      sym (join-split_on (nfc q))
      ∙ ap join (laws.split q ∙ map-fixed nfc (split_on b'/' q) h)
      ∙ join-split_on q

  accepted : normalize_relative_path nfc d b raw ≡ ok q → Accepted
  unfolding normalize_relative_path normalize_posix
  accepted h =
      let path = nfc (map to_slash raw) in
      let (_, h₁) = raise_if-eq-ok (contains 0 raw) _ _ h in
      let (printable, h₂) = raise_if-eq-ok (any is_control raw) _ _ h₁ in
      let (_, h₃) = raise_if-eq-ok (starts_with (codes "/") path) _ _ h₂ in
      let (_, h₄) = raise_if-eq-ok (is_drive path) _ _ h₃ in
      let (ps, kept, bounded) = >>=-eq-ok (keep_parts is_unsafe (split_on b'/' path)) _ h₄ in
      let safe = keep_parts-safe is_unsafe (split_on b'/' path) ps (AllSolid-split_on path) kept in
      let (safe_path, split) = bounded_path-safe is_unsafe d b ps q safe bounded in
      let lacking = laws.inert (map to_slash raw) (map-to_slash-lacks raw printable) in
      let parts_lack =
        keep_parts-sublist is_unsafe (λ p. any is_inert p ≡ false) _ ps
          (split_on-lacks is_inert path lacking) kept in
      let parts_fixed =
        keep_parts-sublist is_unsafe (λ p. nfc p ≡ p) _ ps
          (subst (All (λ p. nfc p ≡ p)) (sym (laws.split (map to_slash raw)))
            (map_idem nfc laws.idem (split_on b'/' (map to_slash raw))))
          kept in
      record {
        parts = ps;
        safe = safe_path;
        split = split;
        inert =
            subst (λ s. any is_inert s ≡ false) (ap join (sym split) ∙ join-split_on q)
              (join-lacks is_inert ps refl parts_lack);
        fixed = fixed_of_parts (subst (All (λ p. nfc p ≡ p)) (sym split) parts_fixed);
        bounded = bounded;
      }

  again : Accepted → is_drive q ≡ false → normalize_relative_path nfc d b q ≡ ok q
  unfolding normalize_relative_path normalize_posix
  again a no_drive = rw (control-zero q (inert-control q a.inert)) (
      rw (inert-control q a.inert) (
        rw (map-to_slash-inert q a.inert) (
          rw a.fixed (
            rw (relative-safe is_unsafe q a.safe.segments) (
              rw no_drive (
                rw (keep_parts-kept is_unsafe (split_on b'/' q) a.safe.segments)
                  (rw a.split a.bounded)))))))

  bounded-join :
      (d' b' : ℕ) (ps : List Text) (r : Text) → bounded_path d' b' ps ≡ ok r → r ≡ join ps
  unfolding bounded_path
  bounded-join d' b' ps r h =
      let (_, h₁) = raise_if-eq-ok (is_empty (join ps)) _ _ h in
      let (_, h₂) = raise_if-eq-ok (ltb d' (length ps)) _ _ h₁ in
      let (_, h₃) = raise_if-eq-ok (ltb b' (utf8_length (join ps))) _ _ h₂ in sym (ok-injective h₃)

  again_any : (d' b' : ℕ) (r : Text) → Accepted → normalize_relative_path nfc d' b' q ≡ ok r → r ≡ q
  unfolding normalize_relative_path normalize_posix
  again_any d' b' r a h =
      let path = nfc (map to_slash q) in
      let (_, h₁) = raise_if-eq-ok (contains 0 q) _ _ h in
      let (_, h₂) = raise_if-eq-ok (any is_control q) _ _ h₁ in
      let (_, h₃) = raise_if-eq-ok (starts_with (codes "/") path) _ _ h₂ in
      let (_, h₄) = raise_if-eq-ok (is_drive path) _ _ h₃ in
      let (ps, kept, bounded) = >>=-eq-ok (keep_parts is_unsafe (split_on b'/' path)) _ h₄ in
      let same : path ≡ q = ap nfc (map-to_slash-inert q a.inert) ∙ a.fixed in
      let parts : ok ps ≡ ok (split_on b'/' q) =
        sym kept
        ∙ ap (λ s. keep_parts is_unsafe (split_on b'/' s)) same
        ∙ keep_parts-kept is_unsafe (split_on b'/' q) a.safe.segments in
      bounded-join d' b' ps r bounded ∙ ap join (ok-injective parts) ∙ join-split_on q

-- Under whatever limits an accepted path is normalised again, the limits only refuse.
pub normalize_relative_path-again :
    (nfc : Text → Text) (d b d' b' : ℕ) (raw q r : Text)
    → NfcLaws nfc
    → normalize_relative_path nfc d b raw ≡ ok q
    → normalize_relative_path nfc d' b' q ≡ ok r
    → r ≡ q
normalize_relative_path-again nfc d b d' b' raw q r laws h =
    again_any nfc laws d b raw q d' b' r (accepted nfc laws d b raw q h)

-- Normalising an accepted path again, under the same limits, changes nothing, provided that it does
-- not read as a drive (`C:`).
pub normalize_relative_path_idem :
    (nfc : Text → Text) (d b : ℕ) (raw q : Text)
    → NfcLaws nfc
    → normalize_relative_path nfc d b raw ≡ ok q
    → is_drive q ≡ false
    → normalize_relative_path nfc d b q ≡ ok q
normalize_relative_path_idem nfc d b raw q laws h =
    again nfc laws d b raw q (accepted nfc laws d b raw q h)

module _ (d b c : ℕ) (s : Text) (solid : contains b'/' (c ∷ b':' ∷ s) ≡ false) (depth : 1 ≤ d)
    (bytes : utf8_length (c ∷ b':' ∷ s) ≤ b) where
  abbrev drive : Text
  drive = c ∷ b':' ∷ s

  keep_drive : keep_parts is_unsafe (split_on b'/' (codes "./" ++ drive)) ≡ ok (drive ∷ [])
  unfolding keep_parts is_unsafe text_eq
  keep_drive =
      rw (split_on-append b'/' (codes ".") drive refl)
        (rw (split_on-solid b'/' drive solid) (ground arith))

  bounded_drive : bounded_path d b (drive ∷ []) ≡ ok drive
  unfolding bounded_path join
  bounded_drive = ground arith

-- A path that reads as a drive is refused, and accepted behind a leading `./`: then the result is
-- the drive path itself. `c:s` stands for any such path of one segment that Unicode normalisation
-- leaves alone, within the limits.
pub hidden_drive :
    (nfc : Text → Text) (d b c : ℕ) (s : Text)
    → nfc (c ∷ b':' ∷ s) ≡ c ∷ b':' ∷ s
    → nfc (codes "./" ++ c ∷ b':' ∷ s) ≡ codes "./" ++ c ∷ b':' ∷ s
    → any is_inert (c ∷ b':' ∷ s) ≡ false
    → contains b'/' (c ∷ b':' ∷ s) ≡ false
    → 1 ≤ d
    → utf8_length (c ∷ b':' ∷ s) ≤ b
    → (normalize_relative_path nfc d b (c ∷ b':' ∷ s) ≡ err invalid_relative_path)
      × (normalize_relative_path nfc d b (codes "./" ++ c ∷ b':' ∷ s) ≡ ok (c ∷ b':' ∷ s))
unfolding normalize_relative_path normalize_posix starts_with is_drive
hidden_drive nfc d b c s fixed fixed' inert solid depth bytes =
    let path = c ∷ b':' ∷ s in
    let dotted = codes "./" ++ path in
    let slashes = map-to_slash-inert path inert in
    (
      rw (control-zero path (inert-control path inert))
          (rw (inert-control path inert) (rw slashes (rw fixed (ground arith)))),
      rw (control-zero dotted (inert-control dotted inert)) (
          rw (inert-control dotted inert) (
            rw (map-to_slash-inert dotted inert) (
              rw fixed' (
                rw (keep_drive d b c s solid depth bytes)
                  (bounded_drive d b c s solid depth bytes))))),
    )
