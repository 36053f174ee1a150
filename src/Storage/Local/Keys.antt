-- ===== src/Storage/Local/Keys.antt =====
-- app/storage/local.py: `safe_join` on the segments that the services pass. Their keys are
-- normalised, and their buckets and upload keys are one segment.
use mathlib.Core.List.{append_assoc, append-nil}
use pyupload_x.Base.{
  ℕ, ◌≡◌, refl, sym, ap, subst, ◌∙◌, Bool, true, false, List, [], ◌∷◌, ◌++◌, arith, All, contains,
  Text, codes, text_eq_iff, starts_with,
}
use pyupload_x.Errors.{ok}
use pyupload_x.Paths.{is_skipped, is_parent, is_unsafe, normalize_relative_path}
use pyupload_x.Paths.Segments.{split_on, join, join-split_on, split_on-solid}
use pyupload_x.Paths.Safety.{IsSafeSegment, normalize_relative_path-IsSafePath}
use pyupload_x.Storage.FileSystem.{
  FilePath, components, join_part, join_path, resolve_from, is_under,
}
use pyupload_x.Storage.FileSystem.Laws.{is_under_append}
use pyupload_x.Storage.Local.Paths.{LocalStorageConfig, safe_join, object_path}

-- one segment that names something in its directory
abbrev pub IsName : Text → Type 0
IsName s = (contains b'/' s ≡ false) × (is_skipped s ≡ false) × (is_parent s ≡ false)

-- the path of a root is resolved
abbrev pub IsResolved : FilePath → Type 0
IsResolved p = All (λ s. is_parent s ≡ false) p

IsName-safe : (refuse : Text → Bool) (s : Text) → IsSafeSegment refuse s → IsName s
IsName-safe refuse s h = (
  h.solid,
  ground (arith, text_eq_iff s [], text_eq_iff s (codes "."), h.named, h.not_self),
  ground (arith, text_eq_iff s (codes ".."), h.not_parent),
)

pub AllNames-safe :
    (refuse : Text → Bool) (ss : List Text) → All (IsSafeSegment refuse) ss → All IsName ss
AllNames-safe refuse [] h = tt
AllNames-safe refuse (s ∷ ss) h = (IsName-safe refuse s h.0, AllNames-safe refuse ss h.1)

components-name : (s : Text) → IsName s → components s ≡ s ∷ []
unfolding components
components-name s h = rw (split_on-solid b'/' s h.0) (ground (arith, h.1))

join_part-name : (p : FilePath) (s : Text) → IsName s → join_part p s ≡ p ++ s ∷ []
unfolding join_part starts_with
join_part-name p [] h = cc
join_part-name p (c ∷ s) h = ground (arith, components-name (c ∷ s) h, h.0)

join_path-names : (p : FilePath) (ss : List Text) → All IsName ss → join_path p ss ≡ p ++ ss
unfolding join_path
join_path-names p [] h = sym (append-nil p)
join_path-names p (s ∷ ss) h =
    rw (join_part-name p s h.0) (join_path-names (p ++ s ∷ []) ss h.1 ∙ append_assoc p (s ∷ []) ss)

resolve_from-resolved : (done p : FilePath) → IsResolved p → resolve_from done p ≡ done ++ p
unfolding resolve_from
resolve_from-resolved done [] h = sym (append-nil done)
resolve_from-resolved done (s ∷ p) h =
    rw h.0 (resolve_from-resolved (done ++ s ∷ []) p h.1 ∙ append_assoc done (s ∷ []) p)

IsResolved-names :
    (root : FilePath) (ss : List Text) → IsResolved root → All IsName ss → IsResolved (root ++ ss)
IsResolved-names [] [] h k = tt
IsResolved-names [] (s ∷ ss) h k = (k.0.2, IsResolved-names [] ss tt k.1)
IsResolved-names (r ∷ root) ss h k = (h.0, IsResolved-names root ss h.1 k)

pub safe_join-names :
    (root : FilePath) (ss : List Text)
    → IsResolved root
    → All IsName ss
    → safe_join root ss ≡ ok (root ++ ss)
unfolding safe_join
safe_join-names root ss h k =
    rw
      (
        join_path-names root ss k,
        resolve_from-resolved [] (root ++ ss) (IsResolved-names root ss h k),
        is_under_append root ss,
      )
      refl

append-cancel : (root p q : FilePath) → root ++ p ≡ root ++ q → p ≡ q
append-cancel [] p q h = h
append-cancel (r ∷ root) p q h = append-cancel root p q (tail_eq h)
  where
    tail_eq : {x : Text} {xs ys : FilePath} → x ∷ xs ≡ x ∷ ys → xs ≡ ys
    tail_eq e = cc

module _ (config : LocalStorageConfig) (root : IsResolved config.root_path)
    (nfc : Text → Text) where
  -- A key that was accepted, in a bucket that is one segment, has its path below the bucket's.
  pub object_path-normal :
      (d b : ℕ) (raw key bucket : Text)
      → IsName bucket
      → normalize_relative_path nfc d b raw ≡ ok key
      → object_path config bucket key ≡ ok (config.root_path ++ bucket ∷ split_on b'/' key)
  unfolding object_path
  object_path-normal d b raw key bucket h k =
      safe_join-names config.root_path (bucket ∷ split_on b'/' key) root (
        h,
        AllNames-safe is_unsafe (split_on b'/' key)
            (normalize_relative_path-IsSafePath nfc d b raw key k).segments,
      )

  -- The path of an accepted key stays below the directory of its bucket, and two accepted keys have
  -- one path only if they and their buckets are the same.
  pub object_path-injective :
      (d b : ℕ) (raw raw' key key' bucket bucket' : Text) (p : FilePath)
      → IsName bucket
      → IsName bucket'
      → normalize_relative_path nfc d b raw ≡ ok key
      → normalize_relative_path nfc d b raw' ≡ ok key'
      → object_path config bucket key ≡ ok p
      → object_path config bucket' key' ≡ ok p
      → (is_under (config.root_path ++ bucket ∷ []) p ≡ true) × (bucket ≡ bucket') × (key ≡ key')
  object_path-injective d b raw raw' key key' bucket bucket' p h h' k k' e e' =
      let here : config.root_path ++ bucket ∷ split_on b'/' key ≡ p =
        ok_eq (sym (object_path-normal d b raw key bucket h k) ∙ e) in
      let there : config.root_path ++ bucket' ∷ split_on b'/' key' ≡ p =
        ok_eq (sym (object_path-normal d b raw' key' bucket' h' k') ∙ e') in
      let same : bucket' ∷ split_on b'/' key' ≡ bucket ∷ split_on b'/' key =
        append-cancel config.root_path _ _ (there ∙ sym here) in
      (
        subst (λ (q : FilePath). is_under (config.root_path ++ bucket ∷ []) q ≡ true)
            (append_assoc config.root_path (bucket ∷ []) (split_on b'/' key) ∙ here)
            (is_under_append (config.root_path ++ bucket ∷ []) (split_on b'/' key)),
        cc,
        sym (join-split_on key) ∙ ap join (cc) ∙ join-split_on key',
      )
    where
      ok_eq : {x y : FilePath} → ok x ≡ ok y → x ≡ y
      ok_eq e = cc
