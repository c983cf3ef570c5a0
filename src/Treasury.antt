-- ===== src/Treasury.antt =====
-- contracts/treasury: the fees of the protocol.
pub mod Fees
