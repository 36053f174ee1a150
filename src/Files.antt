-- ===== src/Files.antt =====
-- app/services/file_service.py: stored files, read, linked, deleted and uploaded in one request.
pub mod Access
pub mod Links
pub mod Proxy
pub mod Removal
