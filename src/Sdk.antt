-- ===== src/Sdk.antt =====
-- sdk/pyuploadx: the client library.
pub mod Multipart
pub mod Retry
pub mod Download
