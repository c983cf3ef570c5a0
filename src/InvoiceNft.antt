-- ===== src/InvoiceNft.antt =====
-- contracts/invoice_nft/src/lib.rs: the invoices, their life cycle and the exposure of each SME.
pub mod State
pub mod Guards
pub mod Admin
pub mod Mint
pub mod Edit
pub mod Status
pub mod Freeze
pub mod Metadata
pub mod Views
pub mod Requests
pub mod Lifecycle
pub mod Exposure
mod Shapes
pub mod Hashes
pub mod Pages
pub mod Quota
pub mod Audit
pub mod Freezing
pub mod Referrals
pub mod Access
mod Tests
