-- ===== src/Users.antt =====
-- The users module of the backend (apps/backend/src/modules/users).
pub mod TokenVersion
pub mod AuthEffects
pub mod Gateway
pub mod RolePermissions
pub mod Policies
mod Tests
mod PolicyTests
