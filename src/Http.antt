-- ===== src/Http.antt =====
-- internal/httpserver/server.go: the interfaces, the handlers and the routes.
pub mod Types
pub mod Guard
pub mod Sessions
pub mod Admin
pub mod Routes
pub mod Access
pub mod Wiring
pub mod Protect
pub mod Audit
pub mod Answers
pub mod Lifetime
pub mod Middleware
pub mod Frontend
pub mod Files
pub mod Trace
pub mod RequestId
pub mod Paths
pub mod Header
