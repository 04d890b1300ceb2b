-- ===== src/Commands.antt =====
-- The commands under cmd/.
pub mod Wait
