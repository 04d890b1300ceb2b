-- ===== src/Auth/Users.antt =====
-- The user stores of internal/auth: store.go, store_file.go and store_postgres.go.
pub mod Memory
pub mod File
pub mod Laws
pub mod Reload
pub mod Opened
pub mod Pg
