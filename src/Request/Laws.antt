-- ===== src/Request/Laws.antt =====
-- Inversion of methods that return.
use pyupload_x.Base.{◌≡◌, refl, Bool, true, false, Option, none, some}
use pyupload_x.Errors.{Error, Result, ok, err}
use pyupload_x.Storage.{Effect}
use pyupload_x.Request.{World, Action, call, continue, lift, or_raise, raise_when, ◌>>=◌}

module _ {S A B : Type 0} where
  -- What comes before a bind returned, and what comes after it ran on the state it left.
  pub bind-eq-ok :
      (m : Action S A) (f : A → Action S B) (w : World S) {b : B} {x : World S}
      → (m >>= f) w ≡ (ok b, x)
      → (a : A) × (v : World S) × (m w ≡ (ok a, v)) × (f a v ≡ (ok b, x))
  bind-eq-ok m f w {b} {x} h = inverted (m w) refl h
    where
      inverted :
          (p : Result A × World S)
          → m w ≡ p
          → continue p.0 f p.1 ≡ (ok b, x)
          → (a : A) × (v : World S) × (m w ≡ (ok a, v)) × (f a v ≡ (ok b, x))
      inverted (ok a, v) e g = (a, v, e, g)
      inverted (err e', v) e g = cc

  pub lift-eq-ok :
      (r : Result A) (f : A → Action S B) (w : World S) {b : B} {x : World S}
      → (lift r >>= f) w ≡ (ok b, x)
      → (a : A) × (r ≡ ok a) × (f a w ≡ (ok b, x))
  lift-eq-ok (ok a) f w h = (a, refl, h)
  lift-eq-ok (err e) f w h = cc

  pub or_raise-eq-ok :
      (o : Option A) (e : Error) (f : A → Action S B) (w : World S) {b : B} {x : World S}
      → (or_raise o e >>= f) w ≡ (ok b, x)
      → (a : A) × (o ≡ some a) × (f a w ≡ (ok b, x))
  or_raise-eq-ok none e f w h = cc
  or_raise-eq-ok (some a) e f w h = (a, refl, h)

  -- A call of the backend that returned left its new state, and nothing else changed.
  pub call-eq-ok :
      (g : Effect S A) (f : A → Action S B) (w : World S) {b : B} {x : World S}
      → (call g >>= f) w ≡ (ok b, x)
      → (a : A) × (s : S) × (g w.store ≡ (ok a, s)) × (f a (record w { store = s }) ≡ (ok b, x))
  call-eq-ok g f w {b} {x} h = inverted (g w.store) refl h
    where
      inverted :
          (p : Result A × S)
          → g w.store ≡ p
          → continue p.0 f (record w { store = p.1 }) ≡ (ok b, x)
          → (a : A) × (s : S) × (g w.store ≡ (ok a, s)) × (f a (record w { store = s }) ≡ (ok b, x))
      inverted (ok a, s) e k = (a, s, e, k)
      inverted (err e', s) e k = cc

module _ {S B : Type 0} where
  pub raise_when-eq-ok :
      (t : Bool) (e : Error) (f : Unit {0} → Action S B) (w : World S) {b : B} {x : World S}
      → (raise_when t e >>= f) w ≡ (ok b, x)
      → (t ≡ false) × (f tt w ≡ (ok b, x))
  raise_when-eq-ok true e f w h = cc
  raise_when-eq-ok false e f w h = (refl, h)
