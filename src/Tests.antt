-- ===== src/Tests.antt =====
-- The services run on concrete inputs: examples of the theorems, on a small configuration.
pub mod Backend
pub mod Administration
pub mod Buckets
pub mod Client
pub mod Samples
pub mod Sessions
pub mod Objects
pub mod Texts
pub mod Directories
