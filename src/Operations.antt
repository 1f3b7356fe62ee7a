-- ===== src/Operations.antt =====
-- The operations that funds are run by: operations/.
pub mod Allocation
pub mod Chart
pub mod Contributions
pub mod Periods
pub mod ProRata
pub mod Calls
pub mod Distributions
pub mod Portfolio
pub mod Statements
pub mod History
pub mod Reference
pub mod Tests
