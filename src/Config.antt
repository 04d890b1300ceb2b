-- ===== src/Config.antt =====
-- internal/config/config.go: the configuration that is read from the environment.
pub mod Number
pub mod Defs
pub mod Laws
