-- ===== src/Tests.antt =====
-- Tests: runs of the model on concrete data, and one instance of each theorem that has hypotheses.
mod Fixtures
mod Auth
mod Sessions
mod Http
mod SqlProfile
mod Config
mod Migrations
mod Postgres
mod SecondStart
mod System
