-- ===== src/Uploads/Sound/Outcome.antt =====
-- The rules to reason about the state that a method leaves, whether it returns or raises.
use pyupload_x.Base.{◌≡◌, refl, Bool, true, false, Option, none, some}
use pyupload_x.Errors.{Error, Result, ok, err}
use pyupload_x.Storage.{Effect}
use pyupload_x.Request.{World, Action, call, continue, lift, or_raise, raise_when, ◌>>=◌}
use pyupload_x.Uploads.Parts.{raise_some}

module _ {S B : Type 0} (P : World S → Type 0) where
  -- A check that raises leaves the state it found.
  pub after-raise_when :
      (t : Bool) (e : Error) (f : Unit {0} → Action S B) (w : World S)
      → P w
      → (t ≡ false → P (f tt w).1)
      → P ((raise_when t e >>= f) w).1
  after-raise_when true e f w h k = h
  after-raise_when false e f w h k = k refl

  pub after-raise_some :
      (o : Option Error) (f : Unit {0} → Action S B) (w : World S)
      → P w
      → (o ≡ none → P (f tt w).1)
      → P ((raise_some o >>= f) w).1
  after-raise_some none f w h k = k refl
  after-raise_some (some e) f w h k = h

module _ {S A B : Type 0} (P : World S → Type 0) where
  pub after-or_raise :
      (o : Option A) (e : Error) (f : A → Action S B) (w : World S)
      → P w
      → ((a : A) → o ≡ some a → P (f a w).1)
      → P ((or_raise o e >>= f) w).1
  after-or_raise none e f w h k = h
  after-or_raise (some a) e f w h k = k a refl

  pub after-lift :
      (r : Result A) (f : A → Action S B) (w : World S)
      → P w
      → ((a : A) → r ≡ ok a → P (f a w).1)
      → P ((lift r >>= f) w).1
  after-lift (ok a) f w h k = k a refl
  after-lift (err e) f w h k = h

  -- A call of the backend changes nothing but the backend.
  pub after-call :
      (g : Effect S A) (f : A → Action S B) (w : World S)
      → ((s : S) → P (record w { store = s }))
      → ((a : A) (s : S) → P (f a (record w { store = s })).1)
      → P ((call g >>= f) w).1
  after-call g f w h k = outcome (g w.store)
    where
      outcome : (x : Result A × S) → P (continue x.0 f (record w { store = x.1 })).1
      outcome (ok a, s) = k a s
      outcome (err e, s) = h s

  -- A method that keeps the state sound, before another that does.
  pub after-bind :
      (m : Action S A) (f : A → Action S B) (w : World S)
      → P (m w).1
      → ((a : A) (w' : World S) → P w' → P (f a w').1)
      → P ((m >>= f) w).1
  after-bind m f w h k = outcome (m w) h
    where
      outcome : (x : Result A × World S) → P x.1 → P (continue x.0 f x.1).1
      outcome (ok a, w') g = k a w' g
      outcome (err e, w') g = g
