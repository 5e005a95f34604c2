-- ===== src/Router.antt =====
-- The router of backend/internal/api/router.go: its table of routes, the chain of middleware of each,
-- their handlers, and the whole.
pub mod Table
pub mod Endpoints
pub mod Handlers
pub mod Serving
pub mod Authority
pub mod Guarded
pub mod Moved
pub mod Framing
pub mod Shielded
mod Tests
