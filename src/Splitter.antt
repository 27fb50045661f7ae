-- ===== src/Splitter.antt =====
-- The splitter contract: contracts/finance/andromeda-splitter/src, with the types of
-- packages/andromeda-finance/src/splitter.rs.
pub mod State
pub mod Handlers
pub mod Shares
pub mod Send
pub mod Total
