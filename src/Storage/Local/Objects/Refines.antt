-- ===== src/Storage/Local/Objects/Refines.antt =====
-- app/storage/local.py as a store of objects: the calls that returned are updates of a function from
-- paths to bytes.
use pyupload_x.Base.{
  ℕ, ◌≡◌, refl, ap, ◌∙◌, ◌≢◌, inl, inr, Bool, false, Option, none, some, List, [], ◌∷◌, arith,
  if◌then◌else◌, Bool-cases, Option-cases, any, All, Text,
}
use pyupload_x.Errors.{Error, Result, ok, err}
use pyupload_x.Storage.{Bytes, StoredObject}
use pyupload_x.Storage.FileSystem.{FilePath, path_eq, Disk, unlink}
use pyupload_x.Storage.FileSystem.Writes.{view, unlink-some}
use pyupload_x.Storage.FileSystem.Laws.{path_eq_iff}
use pyupload_x.Storage.Local.Paths.{LocalStorageConfig, temporary, at_path, object_path}
use pyupload_x.Storage.Local.Objects.{put_object, delete_object}
use pyupload_x.Storage.Local.Objects.Outcome.{Puts, put_object-Puts}

pub data ObjectCall : Type 0 where
  put : Text → Text → Bytes → Option ℕ → Option Text → ObjectCall
  remove : Text → Text → ObjectCall

abbrev pub after_call : {A : Type 0} → Result A × Disk → Option Disk
after_call (ok a, d) = some d
after_call (err e, d) = none

abbrev pub and_then : Option Disk → (Disk → Option Disk) → Option Disk
and_then none f = none
and_then (some d) f = f d

module _ (config : LocalStorageConfig) (sha256 : Bytes → Text) where
  unfoldable pub run_call : ObjectCall → Disk → Option Disk
  run_call (put b k stream size sum) d = after_call (put_object config sha256 b k stream size sum d)
  run_call (remove b k) d = after_call (delete_object config b k d)

  -- The disk after some calls, if each of them returns.
  unfoldable pub run_calls : List ObjectCall → Disk → Option Disk
  run_calls [] d = some d
  run_calls (c ∷ cs) d = and_then (run_call c d) (run_calls cs)

  abbrev pub is_at : Result FilePath → FilePath → Bool
  is_at (ok p) q = path_eq p q
  is_at (err e) q = false

  -- The promise of the store: what the bytes at a path are after a call, from those before.
  abbrev pub effect : FilePath → ObjectCall → Option Bytes → Option Bytes
  effect q (put b k stream size sum) old =
      if is_at (object_path config b k) q then some stream else old
  effect q (remove b k) old = if is_at (object_path config b k) q then none else old

  abbrev pub effects : FilePath → List ObjectCall → Option Bytes → Option Bytes
  effects q [] old = old
  effects q (c ∷ cs) old = effects q cs (effect q c old)

  -- a path that no call of the list uses for its temporary file
  abbrev pub is_temporary : Result FilePath → FilePath → Bool
  is_temporary (ok p) q = path_eq (temporary p) q
  is_temporary (err e) q = false

  abbrev pub is_used : FilePath → ObjectCall → Bool
  is_used q (put b k stream size sum) = is_temporary (object_path config b k) q
  is_used q (remove b k) = false

  -- each object has a name
  abbrev pub HasName : ObjectCall → Type 0
  HasName (put b k stream size sum) = object_path config b k ≢ ok []
  HasName (remove b k) = Unit

  Puts-effect :
      (stream : Bytes) (sum : Option Text) (p q : FilePath) (d d' : Disk)
      (x : Result StoredObject × Disk)
      → Puts sha256 stream sum p (view d) x
      → path_eq (temporary p) q ≡ false
      → after_call x ≡ some d'
      → view d' q ≡ (if path_eq p q then some stream else view d q)
  Puts-effect stream sum p q d d' (ok o, e) u t h =
      let same : e ≡ d' = ground arith in
      elim (Bool-cases (path_eq p q)) [
        | inl a ↦ rw (a, ← (path_eq_iff p q).0 a, ← same) u.0
        | inr a ↦ rw (a, ← same) (u.4 q a t)
      ]
  Puts-effect stream sum p q d d' (err x, e) u t h = cc

  put_object-refused :
      (b k : Text) (stream : Bytes) (size : Option ℕ) (sum : Option Text) (d : Disk) (e : Error)
      → object_path config b k ≡ err e
      → put_object config sha256 b k stream size sum d ≡ (err e, d)
  unfolding put_object
  put_object-refused b k stream size sum d e h = rw (h, at_path) refl

  put-effect :
      (q : FilePath) (b k : Text) (stream : Bytes) (size : Option ℕ) (sum : Option Text)
      (d d' : Disk) (r : Result FilePath)
      → object_path config b k ≡ r
      → r ≢ ok []
      → is_temporary r q ≡ false
      → after_call (put_object config sha256 b k stream size sum d) ≡ some d'
      → view d' q ≡ (if is_at r q then some stream else view d q)
  put-effect q b k stream size sum d d' (err e) found named u h =
      absurd (refused (rw (put_object-refused b k stream size sum d e found) at h))
    where
      refused : none ≢ some d'
      refused z = cc
  put-effect q b k stream size sum d d' (ok p) found named u h =
      Puts-effect stream sum p q d d' (put_object config sha256 b k stream size sum d)
        (put_object-Puts config sha256 b k stream size sum p d found (λ z. named (ap ok z))) u h

  remove-effect :
      (q : FilePath) (b k : Text) (d d' : Disk) (r : Result FilePath)
      → object_path config b k ≡ r
      → after_call (delete_object config b k d) ≡ some d'
      → view d' q ≡ (if is_at r q then none else view d q)
  unfolding delete_object
  remove-effect q b k d d' (err e) found h = ground arith
  remove-effect q b k d d' (ok p) found h = elim (Option-cases (unlink p d.nodes)) [
    | inl e ↦ ground arith
    | inr (m, e) ↦ ground (arith, unlink-some p q d.nodes m)
  ]

  call-effect :
      (q : FilePath) (c : ObjectCall) (d d' : Disk)
      → HasName c
      → is_used q c ≡ false
      → run_call c d ≡ some d'
      → view d' q ≡ effect q c (view d q)
  unfolding run_call
  call-effect q (put b k stream size sum) d d' named unused h =
      put-effect q b k stream size sum d d' (object_path config b k) refl named unused h
  call-effect q (remove b k) d d' named unused h =
      remove-effect q b k d d' (object_path config b k) refl h

  -- The local backend keeps the promise of a store of objects: after any calls that put and delete
  -- objects and that returned, the bytes at a path are those that the calls leave, one after the
  -- other, at every path that none of them used for a temporary file.
  pub run_calls-effects :
      (q : FilePath) (cs : List ObjectCall) (d d' : Disk)
      → All HasName cs
      → any (is_used q) cs ≡ false
      → run_calls cs d ≡ some d'
      → view d' q ≡ effects q cs (view d q)
  unfolding run_calls
  run_calls-effects q [] d d' named unused h = ground arith
  run_calls-effects q (c ∷ cs) d d' named unused h = elim (Option-cases (run_call c d)) [
    | inl e ↦ ground arith
    | inr (d'', e) ↦
        run_calls-effects q cs d'' d' named.1 (ground arith) (ground arith)
        ∙ ap (effects q cs) (call-effect q c d d'' named.0 (ground arith) e)
  ]
