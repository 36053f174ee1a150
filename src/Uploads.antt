-- ===== src/Uploads.antt =====
-- app/services/upload_service.py: the sessions of multipart uploads.
pub mod Plan
pub mod Create
pub mod Geometry
pub mod Parts
pub mod Complete
pub mod Finish
pub mod Sound
pub mod Completion
pub mod Missing
pub mod Written
pub mod Endings
pub mod Ended
pub mod Afterwards
pub mod Sweep
pub mod Passes
