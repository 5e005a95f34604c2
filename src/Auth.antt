-- ===== src/Auth.antt =====
-- Signing in with Google, and out: backend/internal/auth.
pub mod Google
pub mod Login
mod Tests
