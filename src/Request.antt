-- ===== src/Request.antt =====
-- One request: the methods of the services run over the tables and the backend, and may raise. What
-- was written before a raise stays written, so the state comes back beside the error too. The clock
-- does not move within a request.
pub mod Settings
pub mod Laws
use pyupload_x.Base.{Bool, true, false, Option, none, some, Text}
use pyupload_x.Errors.{Error, Result, ok, err, exception}
use pyupload_x.Lifecycle.Mode.{Time}
use pyupload_x.Db.{Db}
use pyupload_x.Storage.{Effect, StorageAdapter}
use pyupload_x.Config
use pyupload_x.Db.Uploads.{Dialect}

pub record World (S : Type 0) : Type 0 where
  pub db : Db
  pub store : S
  pub now : Time

-- app/core/auth.py
pub record Identity : Type 0 where
  pub tenant_id : Text
  pub principal_id : Text

abbrev pub Action : Type 0 → Type 0 → Type 0
Action S A = World S → Result A × World S

-- An `except ApiError` lets every other exception through.
abbrev pub caught : {A : Type 0} → Result A → Result (Unit {0})
caught (ok a) = ok tt
caught (err (exception x)) = err (exception x)
caught (err _) = ok tt

module _ {S A : Type 0} where
  abbrev pub pure : A → Action S A
  pure a w = (ok a, w)

  abbrev pub raise : Error → Action S A
  raise e w = (err e, w)

  abbrev pub lift : Result A → Action S A
  lift r w = (r, w)

  abbrev pub gets : (World S → A) → Action S A
  gets f w = (ok (f w), w)

  -- `if value is None: raise e`
  abbrev pub or_raise : Option A → Error → Action S A
  or_raise none e = raise e
  or_raise (some a) e = pure a

  -- a call of the backend
  abbrev pub call : Effect S A → Action S A
  call f w = let (r, s) = f w.store in (r, record w { store = s })

  -- `try: … except ApiError: pass`
  abbrev pub ignore_error : Action S A → Action S Unit
  ignore_error m w = (caught (m w).0, (m w).1)

module _ {S A B : Type 0} where
  abbrev pub continue : Result A → (A → Action S B) → World S → Result B × World S
  continue (ok a) f w = f a w
  continue (err e) f w = (err e, w)

  infixl 5 ◌>>=◌ ◌>>◌
  abbrev pub ◌>>=◌ : Action S A → (A → Action S B) → Action S B
  ◌>>=◌ m f w = let (r, w') = m w in continue r f w'

  abbrev pub ◌>>◌ : Action S A → Action S B → Action S B
  m >> n = m >>= λ _. n

module _ {S : Type 0} where
  abbrev pub raise_when : Bool → Error → Action S Unit
  raise_when true e = raise e
  raise_when false e = pure tt

  abbrev pub modify_db : (Db → Db) → Action S Unit
  modify_db f w = (ok tt, record w { db = f w.db })

-- A route of the API: the session is committed if the handler returns, and what it wrote to the
-- tables is rolled back if it raises; the backend keeps what was done.
abbrev pub settle : {S A : Type 0} → Db → Result A → World S → Result A × World S
settle before (ok a) w = (ok a, w)
settle before (err e) w = (err e, record w { db = before })

abbrev pub route : {S A : Type 0} → Action S A → Action S A
route m w = let (r, w') = m w in settle w.db r w'

-- What the services are built from: the backend, the settings, the SQL dialect, and the Unicode
-- normalisation of the Python runtime.
pub record App (S : Type 0) : Type 0 where
  pub storage : StorageAdapter S
  pub settings : Config.Settings
  pub dialect : Dialect
  pub nfc : Text → Text
