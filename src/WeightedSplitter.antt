-- ===== src/WeightedSplitter.antt =====
-- The splitter by weights: contracts/finance/andromeda-weighted-distribution-splitter/src, with the types
-- of packages/andromeda-finance/src/weighted_splitter.rs.
pub mod Recipients
pub mod Handlers
pub mod Send
