-- ===== src/Auth.antt =====
-- The auth-service (apps/auth-service) with the libraries that it owns the use of (libs/auth,
-- libs/contracts/auth, libs/database): its data, its repositories and its command handlers.
pub mod Platform
pub mod Entities
pub mod Store
pub mod PasswordService
pub mod TokenIssuer
pub mod MailProducer
pub mod Login
pub mod RefreshTokens
pub mod Passwords
pub mod Journey
pub mod Tests
