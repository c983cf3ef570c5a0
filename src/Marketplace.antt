-- ===== src/Marketplace.antt =====
-- contracts/marketplace: the listings and their funding.
pub mod State
pub mod Guards
pub mod Admin
pub mod Multisig
pub mod Listing
pub mod Funding
pub mod Cancellation
pub mod Investors
pub mod Requests
pub mod Lifecycle
pub mod Payments
mod Tests
