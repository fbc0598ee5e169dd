-- ===== src/File.antt =====
-- The file module, after apps/backend/src/modules/file.
pub mod Store
pub mod Adapter
pub mod Uploads
pub mod Update
pub mod Download
pub mod Listing
pub mod Journey
pub mod Requests
pub mod Tests
