-- ===== src/Access.antt =====
-- Who may do what: access/.
pub mod Keys
pub mod Permissions
pub mod Authentication
pub mod Commands
mod Tests
