-- ===== src/Auth.antt =====
-- backend/app/services/auth_service.py and backend/app/core/security.py: accounts and sessions.
pub mod Core
pub mod Login
pub mod Users
pub mod Samples
mod Tests
