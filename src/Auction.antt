-- ===== src/Auction.antt =====
-- The auction contract: contracts/non-fungible-tokens/andromeda-auction/src.
pub mod State
pub mod Opening
pub mod Handlers
pub mod Query
pub mod Bidding
pub mod Invariant
pub mod Cancel
pub mod Claim
pub mod Reachable
