-- ===== src/Lifecycle/StateMachine.antt =====
-- app/lifecycle/state_machine.py: the tables of the allowed transitions of uploads and of files,
-- and the statuses of app/db/models.py that they are about.
use pyupload_x.Base.{Bool, true, false, List, [], ◌∷◌, if◌then◌else◌, any}
use pyupload_x.Errors.{Result, ok, err, upload_state_conflict}

pub data UploadStatus : Type 0 where
  initiated uploading completing completed aborting aborted expired : UploadStatus

pub data LifecycleStatus : Type 0 where
  active expiring expired deleting deleted archiving archived restoring : LifecycleStatus

-- `UPLOAD_TRANSITIONS.get(current, set())`
unfoldable pub upload_transitions : UploadStatus → List UploadStatus
upload_transitions UploadStatus.initiated =
    UploadStatus.uploading ∷ UploadStatus.aborting ∷ UploadStatus.expired ∷ []
upload_transitions UploadStatus.uploading =
    UploadStatus.completing ∷ UploadStatus.aborting ∷ UploadStatus.expired ∷ []
upload_transitions UploadStatus.completing = UploadStatus.completed ∷ UploadStatus.uploading ∷ []
upload_transitions UploadStatus.aborting = UploadStatus.aborted ∷ []
upload_transitions _ = []

unfoldable pub upload_eq : UploadStatus → UploadStatus → Bool
upload_eq UploadStatus.initiated UploadStatus.initiated = true
upload_eq UploadStatus.uploading UploadStatus.uploading = true
upload_eq UploadStatus.completing UploadStatus.completing = true
upload_eq UploadStatus.completed UploadStatus.completed = true
upload_eq UploadStatus.aborting UploadStatus.aborting = true
upload_eq UploadStatus.aborted UploadStatus.aborted = true
upload_eq UploadStatus.expired UploadStatus.expired = true
upload_eq _ _ = false

unfoldable pub transition_upload : UploadStatus → UploadStatus → Result UploadStatus
unfolding upload_transitions upload_eq
transition_upload current target =
    if any (upload_eq target) (upload_transitions current)
    then ok target
    else err upload_state_conflict

unfoldable pub lifecycle_transitions : LifecycleStatus → List LifecycleStatus
lifecycle_transitions LifecycleStatus.active =
    LifecycleStatus.expiring ∷ LifecycleStatus.archiving ∷ LifecycleStatus.deleting
    ∷ LifecycleStatus.deleted ∷ []
lifecycle_transitions LifecycleStatus.expiring =
    LifecycleStatus.expired ∷ LifecycleStatus.deleting ∷ []
lifecycle_transitions LifecycleStatus.expired =
    LifecycleStatus.deleting ∷ LifecycleStatus.deleted ∷ []
lifecycle_transitions LifecycleStatus.deleting = LifecycleStatus.deleted ∷ []
lifecycle_transitions LifecycleStatus.archiving = LifecycleStatus.archived ∷ []
lifecycle_transitions LifecycleStatus.archived = LifecycleStatus.restoring ∷ []
lifecycle_transitions LifecycleStatus.restoring = LifecycleStatus.active ∷ []
lifecycle_transitions LifecycleStatus.deleted = []

unfoldable pub lifecycle_eq : LifecycleStatus → LifecycleStatus → Bool
lifecycle_eq LifecycleStatus.active LifecycleStatus.active = true
lifecycle_eq LifecycleStatus.expiring LifecycleStatus.expiring = true
lifecycle_eq LifecycleStatus.expired LifecycleStatus.expired = true
lifecycle_eq LifecycleStatus.deleting LifecycleStatus.deleting = true
lifecycle_eq LifecycleStatus.deleted LifecycleStatus.deleted = true
lifecycle_eq LifecycleStatus.archiving LifecycleStatus.archiving = true
lifecycle_eq LifecycleStatus.archived LifecycleStatus.archived = true
lifecycle_eq LifecycleStatus.restoring LifecycleStatus.restoring = true
lifecycle_eq _ _ = false

unfoldable pub transition_lifecycle : LifecycleStatus → LifecycleStatus → Result LifecycleStatus
unfolding lifecycle_transitions lifecycle_eq
transition_lifecycle current target =
    if any (lifecycle_eq target) (lifecycle_transitions current)
    then ok target
    else err upload_state_conflict
