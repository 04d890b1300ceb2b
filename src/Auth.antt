-- ===== src/Auth.antt =====
-- internal/auth: the types, the user stores, the password policy and the session service.
pub mod Types
pub mod Policy
pub mod Users
pub mod Sessions
pub mod State
pub mod Persistence
pub mod Service
pub mod Lockout
pub mod Bootstrap
