-- ===== src/Server.antt =====
-- internal/server: readiness tracking, client addresses, and the two HTTP handlers.
pub mod Readiness
pub mod ClientIp
pub mod Handlers
pub mod Running
pub mod Routing
