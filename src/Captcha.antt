-- ===== src/Captcha.antt =====
-- The captcha module of the backend (apps/backend/src/modules/captcha).
pub mod Types
pub mod Store
pub mod Hashing
pub mod Verify
pub mod Challenge
pub mod Templates
pub mod Generation
mod Tests
