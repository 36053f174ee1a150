-- ===== src/Uploads/Sound/Runs.antt =====
-- Every run of the upload service from empty tables keeps the sessions sound.
use pyupload_x.Base.{ℕ, ◌≤◌, Option, none, [], Text}
use pyupload_x.Base.Int.{ℤ}
use pyupload_x.Errors.{Result, ok, err}
use pyupload_x.Lifecycle.Mode.{Time}
use pyupload_x.Db.{Db}
use pyupload_x.Storage.{Bytes}
use pyupload_x.Request.{World, Identity, App, Action, route, settle}
use pyupload_x.Uploads.Plan.{NewUpload}
use pyupload_x.Uploads.Create.{create_session}
use pyupload_x.Uploads.Parts.{proxy_upload_part, commit_part}
use pyupload_x.Uploads.Complete.{complete, resume}
use pyupload_x.Uploads.Finish.{abort, refresh, expire_upload_sessions}
use pyupload_x.Uploads.Sound.{IsSound}
use pyupload_x.Uploads.Sound.Steps.{commit_part-IsSound, proxy_upload_part-IsSound}
use pyupload_x.Uploads.Sound.Sessions.{create_session-IsSound, resume-IsSound, refresh-IsSound}
use pyupload_x.Uploads.Sound.Endings.{
  abort-IsSound, complete-IsSound, expire_upload_sessions-IsSound,
}

-- One step of the system: a request of a client, which is rolled back if it raises, a pass of the
-- worker, or a time in which clients reach the backend by presigned links and the clock goes on.
pub data Step {S : Type 0} (app : App S) : World S → World S → Type 0 where
  creates :
      (who : Identity) (r : NewUpload) {w : World S}
      → Step app w (route (create_session app who r) w).1
  puts :
      (who : Identity) (id : ℕ) (n : ℤ) (stream : Bytes) (size : ℕ) (checksum : Option Text)
      {w : World S}
      → Step app w (route (proxy_upload_part app who id n stream size checksum) w).1
  commits :
      (who : Identity) (id : ℕ) (n : ℤ) (etag : Text) (size : ℤ) (checksum : Option Text)
      {w : World S}
      → Step app w (route (commit_part app who id n etag size checksum) w).1
  resumes : (who : Identity) (id : ℕ) {w : World S} → Step app w (route (resume app who id) w).1
  completes : (who : Identity) (id : ℕ) {w : World S} → Step app w (route (complete app who id) w).1
  aborts : (who : Identity) (id : ℕ) {w : World S} → Step app w (route (abort app who id) w).1
  refreshes : (who : Identity) (id : ℕ) {w : World S} → Step app w (route (refresh app who id) w).1
  expires : (batch_size : ℕ) {w : World S} → Step app w (expire_upload_sessions batch_size w).1
  passes :
      (store : S) (later : Time) {w : World S}
      → w.now ≤ later
      → Step app w (record w { store = store; now = later })

pub data Run {S : Type 0} (app : App S) : World S → World S → Type 0 where
  done : {w : World S} → Run app w w
  after : {v w x : World S} → Run app v w → Step app w x → Run app v x

route-IsSound :
    {S A : Type 0} (m : Action S A) (w : World S)
    → IsSound w.db
    → IsSound (m w).1.db
    → IsSound (route m w).1.db
route-IsSound {S = S} {A = A} m w h k = settled (m w) k
  where
    settled : (x : Result A × World S) → IsSound x.1.db → IsSound (settle w.db x.0 x.1).1.db
    settled (ok a, v) s = s
    settled (err e, v) s = h

module _ {S : Type 0} (app : App S) where
  Step-IsSound : {w x : World S} → Step app w x → IsSound w.db → IsSound x.db
  Step-IsSound (creates who r {w}) h =
      route-IsSound (create_session app who r) w h (create_session-IsSound app who r w h)
  Step-IsSound (puts who id n stream size checksum {w}) h =
      route-IsSound (proxy_upload_part app who id n stream size checksum) w h
        (proxy_upload_part-IsSound app who id n stream size checksum w h)
  Step-IsSound (commits who id n etag size checksum {w}) h =
      route-IsSound (commit_part app who id n etag size checksum) w h
        (commit_part-IsSound app who id n etag size checksum w h)
  Step-IsSound (resumes who id {w}) h =
      route-IsSound (resume app who id) w h (resume-IsSound app who id w h)
  Step-IsSound (completes who id {w}) h =
      route-IsSound (complete app who id) w h (complete-IsSound app who id w h)
  Step-IsSound (aborts who id {w}) h =
      route-IsSound (abort app who id) w h (abort-IsSound app who id w h)
  Step-IsSound (refreshes who id {w}) h =
      route-IsSound (refresh app who id) w h (refresh-IsSound app who id w h)
  Step-IsSound (expires batch_size {w}) h = expire_upload_sessions-IsSound batch_size w h
  Step-IsSound (passes store later le) h = h

  -- The sessions and parts stay sound in every run: keys are distinct and none is reused, a number
  -- has at most one row in a session, and a row's number is one of its session's, with the offset
  -- that follows from it. A run is any sequence of requests of any clients, whether they return or
  -- raise, of passes of the worker, and of changes of the backend and the clock.
  pub Run-IsSound : {w x : World S} → Run app w x → IsSound w.db → IsSound x.db
  Run-IsSound done h = h
  Run-IsSound (after run step) h = Step-IsSound step (Run-IsSound run h)

abbrev pub empty_db : Db
empty_db = record {
  uploads = [];
  parts = [];
  files = [];
  events = [];
  outbox = [];
  buckets = [];
  settings = [];
  lifecycle_override = none;
  jobs = [];
  entries = [];
  next_id = 0;
}

pub empty_db-IsSound : IsSound empty_db
empty_db-IsSound = record {
  distinct = tt;
  unique = tt;
  parts = tt;
  old_uploads = tt;
  old_parts = tt;
  old_files = tt;
}
