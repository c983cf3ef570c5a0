-- ===== src/Vesting.antt =====
-- contracts/vesting: grants of the token that vest over time.
pub mod Calls
pub mod Shares
pub mod Schedule
pub mod History
mod Tests
