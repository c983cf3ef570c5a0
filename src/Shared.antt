-- ===== src/Shared.antt =====
-- contracts/shared: the types, errors and checks that every contract uses.
pub mod Host
pub mod Errors
pub mod Types
pub mod Validation
pub mod Cid
pub mod CidFormat
pub mod Decimals
pub mod Amounts
pub mod Token
pub mod Ledger
mod Tests
