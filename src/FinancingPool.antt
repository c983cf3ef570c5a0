-- ===== src/FinancingPool.antt =====
-- The financing pool (contracts/financing_pool/src/lib.rs).
pub mod State
pub mod Guards
pub mod Admin
pub mod Positions
pub mod Shares
pub mod Distribution
pub mod Repayment
pub mod Lifecycle
pub mod Settlement
pub mod Requests
pub mod Finality
pub mod Settled
mod Tests
