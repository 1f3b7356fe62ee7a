-- ===== src/Api.antt =====
-- The HTTP layer: api/.
pub mod Errors
pub mod Requests
pub mod Views
mod Tests
