-- ===== src/Directories/StateMachine.antt =====
-- app/directory_upload/state_machine.py: the transitions of a job.
use pyupload_x.Base.{List, [], ◌∷◌, if◌then◌else◌, any}
use pyupload_x.Errors.{Result, ok, err, upload_state_conflict}
use pyupload_x.Db.Directories.{JobStatus, job_eq}

-- `TRANSITIONS.get(current, set())`
unfoldable pub transitions : JobStatus → List JobStatus
transitions JobStatus.created = JobStatus.manifest_uploading ∷ JobStatus.cancelling ∷ []
transitions JobStatus.manifest_uploading = JobStatus.ready ∷ JobStatus.cancelling ∷ []
transitions JobStatus.ready = JobStatus.uploading ∷ JobStatus.cancelling ∷ JobStatus.completed ∷ []
transitions JobStatus.uploading =
    JobStatus.paused ∷ JobStatus.finalizing ∷ JobStatus.cancelling ∷ []
transitions JobStatus.paused = JobStatus.uploading ∷ []
transitions JobStatus.finalizing = JobStatus.completed ∷ JobStatus.completed_with_errors ∷ []
transitions JobStatus.cancelling = JobStatus.cancelled ∷ []
transitions _ = []

unfoldable pub transition : JobStatus → JobStatus → Result JobStatus
unfolding transitions job_eq
transition current target =
    if any (job_eq target) (transitions current) then ok target else err upload_state_conflict
