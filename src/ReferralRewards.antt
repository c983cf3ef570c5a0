-- ===== src/ReferralRewards.antt =====
-- contracts/referral_rewards: the bonus for the referrer of an SME's first invoice.
pub mod State
pub mod Calls
pub mod Solvency
pub mod Claims
mod Tests
