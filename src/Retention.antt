-- ===== src/Retention.antt =====
-- app/services/lifecycle_service.py and app/worker/lifecycle.py: the retention of stored files.
pub mod Service
pub mod Renewal
pub mod Worker
pub mod Messages
pub mod Passes
pub mod Holds
