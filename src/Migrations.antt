-- ===== src/Migrations.antt =====
-- internal/migrations/service.go: the migration files and the record of those that were applied.
pub mod Types
pub mod Sort
pub mod Store
pub mod Service
