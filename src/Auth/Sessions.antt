-- ===== src/Auth/Sessions.antt =====
-- internal/auth/session_store_postgres.go: the session store in the table `auth_sessions`.
pub mod Table
pub mod Laws
pub mod Atomic
