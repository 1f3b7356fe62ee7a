-- ===== src/Ledger.antt =====
-- The ledger engine (ledger/) and the tables that it reads and writes (ledger/models.py,
-- funds/models.py).
pub mod Model
pub mod Decimal
pub mod Validate
pub mod Queries
pub mod Pricing
pub mod Reconciliation
pub mod Insert
pub mod Guards
pub mod Roles
pub mod Post
pub mod Locks
pub mod Idempotency
pub mod Submit
pub mod Reverse
pub mod Retry
mod Tests
