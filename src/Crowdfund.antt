-- ===== src/Crowdfund.antt =====
-- The crowdfund contract: contracts/non-fungible-tokens/flexi-crowdfund/src.
pub mod State
pub mod Paid
pub mod Available
pub mod Invariant
pub mod Stranded
pub mod Mint
pub mod Sale
pub mod Refund
pub mod Transfer
pub mod End
