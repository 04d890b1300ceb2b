-- ===== src/SqlProfile.antt =====
-- internal/sqlprofile: connection profiles of SQL databases, kept in memory and in a JSON file, or in
-- a table of PostgreSQL.
pub mod Types
pub mod Sort
pub mod Service
pub mod Pg
pub mod Spec
