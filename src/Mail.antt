-- ===== src/Mail.antt =====
-- The mail module, after apps/backend/src/modules/mail.
pub mod Store
pub mod Service
pub mod Retry
pub mod Tests
