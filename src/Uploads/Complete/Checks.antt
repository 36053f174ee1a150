-- ===== src/Uploads/Complete/Checks.antt =====
-- `complete` of app/services/upload_service.py: the checks of the status and of the etags.
use pyupload_x.Base.{
  ℕ, Bool, true, false, not, Option, none, some, List, [], ◌∷◌, ◌==◌, if◌then◌else◌, Text, text_eq,
}
use pyupload_x.Errors.{Error, Result, ok, err, upload_aborted, upload_expired, part_etag_mismatch}
use pyupload_x.Lifecycle.StateMachine.{UploadStatus, transition_upload}
use pyupload_x.Db.Rows.{UploadPart, nonempty}
use pyupload_x.Storage.{StoredPart}
use pyupload_x.Request.{Action, pure, raise}

-- the error of a session that was aborted or has expired
unfoldable pub ended_error : UploadStatus → Option Error
ended_error UploadStatus.aborted = some upload_aborted
ended_error UploadStatus.expired = some upload_expired
ended_error _ = none

abbrev pub raise_ended : {S : Type 0} → Option Error → Action S Unit
raise_ended none = pure tt
raise_ended (some e) = raise e

-- `committed_by_number.get(number)`: of several rows with a number the last counts
unfoldable pub part_numbered : ℕ → List UploadPart → Option UploadPart
part_numbered n [] = none
part_numbered n (p ∷ ps) = elim (part_numbered n ps) [
  | some q ↦ some q
  | none ↦ if p.part_number == n then some p else none
]

abbrev pub both_differ : Option Text → Text → Bool
both_differ none t = false
both_differ (some s) [] = false
both_differ (some s) (c ∷ t) = not (text_eq s (c ∷ t))

-- both sides have an etag, and the two differ
abbrev pub etags_differ : Option UploadPart → StoredPart → Bool
etags_differ none stored = false
etags_differ (some p) stored = both_differ (nonempty p.etag) stored.etag

unfoldable pub check_etags : List UploadPart → List StoredPart → Result (Unit {0})
unfolding part_numbered
check_etags committed [] = ok tt
check_etags committed (s ∷ ss) =
    let rest = check_etags committed ss in
    if etags_differ (part_numbered s.part_number committed) s
    then err (part_etag_mismatch s.part_number)
    else rest

abbrev pub is_open : UploadStatus → Bool
is_open UploadStatus.uploading = true
is_open UploadStatus.initiated = true
is_open _ = false

abbrev pub is_completed : UploadStatus → Bool
is_completed UploadStatus.completed = true
is_completed _ = false

-- `if upload.status not in (uploading, initiated): transition_upload(…)`
unfoldable pub may_complete : UploadStatus → Result (Unit {0})
unfolding transition_upload
may_complete status =
    if is_open status
    then ok tt
    else elim (transition_upload status UploadStatus.completing) [ ok s ↦ ok tt | err e ↦ err e ]
