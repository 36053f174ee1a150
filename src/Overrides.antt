-- ===== src/Overrides.antt =====
-- `update` of app/services/setting_service.py and app/db/repositories/setting_repository.py: an
-- administrator overrides settings at run time.
pub mod Values
pub mod Effective
pub mod Update
pub mod Stored
pub mod Bounds
pub mod Asked
