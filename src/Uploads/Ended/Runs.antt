-- ===== src/Uploads/Ended/Runs.antt =====
-- A session that has ended stays so, whatever the system does.
use pyupload_x.Base.{ℕ, Text}
use pyupload_x.Errors.{Result, ok, err}
use pyupload_x.Request.{World, App, Action, route, settle}
use pyupload_x.Uploads.Create.{create_session}
use pyupload_x.Uploads.Parts.{proxy_upload_part, commit_part}
use pyupload_x.Uploads.Complete.{complete, resume}
use pyupload_x.Uploads.Finish.{abort, refresh}
use pyupload_x.Uploads.Sound.Runs.{
  Step, creates, puts, commits, resumes, completes, aborts, refreshes, expires, passes, Run, done,
  after,
}
use pyupload_x.Uploads.Ended.{HasEnded}
use pyupload_x.Uploads.Ended.Parts.{
  commit_part-Over, proxy_upload_part-Over, resume-Over, refresh-Over, create_session-Over,
}
use pyupload_x.Uploads.Ended.Ends.{complete-Over, abort-Over, expire-Over}

module _ {S : Type 0} (app : App S) (id : ℕ) (tenant : Text) where
  abbrev Over : World S → Type 0
  Over w = HasEnded id tenant w.db

  route-Over :
      {A : Type 0} (m : Action S A) (w : World S) → Over w → Over (m w).1 → Over (route m w).1
  route-Over {A = A} m w h k = settled (m w) k
    where
      settled : (x : Result A × World S) → Over x.1 → Over (settle w.db x.0 x.1).1
      settled (ok a, v) s = s
      settled (err e, v) s = h

  Step-Over : {w x : World S} → Step app w x → Over w → Over x
  Step-Over (creates who r {w}) h =
      route-Over (create_session app who r) w h (create_session-Over app id tenant who r w h)
  Step-Over (puts who k n stream size checksum {w}) h =
      route-Over (proxy_upload_part app who k n stream size checksum) w h
        (proxy_upload_part-Over app id tenant who k n stream size checksum w h)
  Step-Over (commits who k n etag size checksum {w}) h =
      route-Over (commit_part app who k n etag size checksum) w h
        (commit_part-Over app id tenant who k n etag size checksum w h)
  Step-Over (resumes who k {w}) h =
      route-Over (resume app who k) w h (resume-Over app id tenant who k w h)
  Step-Over (completes who k {w}) h =
      route-Over (complete app who k) w h (complete-Over app id tenant who k w h)
  Step-Over (aborts who k {w}) h =
      route-Over (abort app who k) w h (abort-Over app id tenant who k w h)
  Step-Over (refreshes who k {w}) h =
      route-Over (refresh app who k) w h (refresh-Over app id tenant who k w h)
  Step-Over (expires batch_size {w}) h = expire-Over app id tenant batch_size w h
  Step-Over (passes store later {w} le) h = record { over = h.over; there = h.there; old = h.old }

  -- A session that has ended stays so in every run.
  pub Run-HasEnded :
      {w x : World S} → Run app w x → HasEnded id tenant w.db → HasEnded id tenant x.db
  Run-HasEnded done h = h
  Run-HasEnded (after run step) h = Step-Over step (Run-HasEnded run h)
