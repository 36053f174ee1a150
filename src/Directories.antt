-- ===== src/Directories.antt =====
-- app/services/directory_upload_service.py and app/directory_upload: uploads of whole directories.
pub mod StateMachine
pub mod Service
pub mod Entries
pub mod Paths
pub mod Keys
pub mod Manifest
pub mod Outcome
