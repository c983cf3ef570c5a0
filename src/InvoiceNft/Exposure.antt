-- ===== src/InvoiceNft/Exposure.antt =====
-- The exposure that the contract caches for each SME, against the sum over the SME's open invoices.
pub mod Sum
pub mod Balance
mod Scan
mod Calls
mod Growth
pub mod Mints
mod Batch
pub mod Steps
pub mod Amend
pub mod History
pub use Sum.*
