-- ===== src/Notification.antt =====
-- The notification module of the backend (apps/backend/src/modules/notification).
pub mod Store
pub mod Dispatch
mod Tests
