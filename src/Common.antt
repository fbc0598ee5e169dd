-- ===== src/Common.antt =====
-- What the modules of the backend share: apps/backend/src/common and apps/backend/src/guards.
pub mod Paginated
pub mod Encryption
pub mod Password
pub mod Tests
