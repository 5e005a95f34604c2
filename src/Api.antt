-- ===== src/Api.antt =====
-- The handlers of the HTTP interface: backend/internal/api.
-- A handler is an action on the world with a response; the JSON of a response is its payload.
pub mod Reply
pub mod Gate
pub mod Spin
pub mod Digits
pub mod Validate
pub mod Wheels
mod Tests
