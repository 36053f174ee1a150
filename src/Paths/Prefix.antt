-- ===== src/Paths/Prefix.antt =====
-- app/directory_upload/paths.py: the object key of an accepted path is the path below the prefix.
use pyupload_x.Base.{ℕ, ◌≡◌, sym, ap, ◌∙◌, [], ◌∷◌, ◌++◌, Text}
use pyupload_x.Errors.{ok, ok-injective, >>=-eq-ok}
use pyupload_x.Paths.{strip_slashes, under, normalize_relative_path, join_prefix}
use pyupload_x.Paths.Normal.{NfcLaws, normalize_relative_path-again}

append_cancel : (p : Text) (s t : Text) → p ++ s ≡ p ++ t → s ≡ t
append_cancel [] s t h = h
append_cancel (c ∷ p) s t h = append_cancel p s t (tail_eq h)
  where
    tail_eq : {x : ℕ} {xs ys : Text} → x ∷ xs ≡ x ∷ ys → xs ≡ ys
    tail_eq e = cc

pub under-injective : (prefix s t : Text) → under prefix s ≡ under prefix t → s ≡ t
under-injective [] s t h = h
under-injective (c ∷ p) s t h = tail_eq (append_cancel (c ∷ p) (b'/' ∷ s) (b'/' ∷ t) h)
  where
    tail_eq : {x : ℕ} {xs ys : Text} → x ∷ xs ≡ x ∷ ys → xs ≡ ys
    tail_eq e = cc

-- The key of an accepted path is the path itself below the prefix.
pub join_prefix-accepted :
    (nfc : Text → Text) (prefix : Text) (d b : ℕ) (raw path k : Text)
    → NfcLaws nfc
    → normalize_relative_path nfc d b raw ≡ ok path
    → join_prefix nfc prefix path ≡ ok k
    → k ≡ under (strip_slashes prefix) path
unfolding join_prefix
join_prefix-accepted nfc prefix d b raw path k laws h j =
    let (q, normal, joined) = >>=-eq-ok (normalize_relative_path nfc 64 1024 path) _ j in
    sym (ok-injective joined)
    ∙ ap (under (strip_slashes prefix))
        (normalize_relative_path-again nfc d b 64 1024 raw path q laws h normal)
