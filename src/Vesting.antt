-- ===== src/Vesting.antt =====
-- The vesting contract: contracts/finance/andromeda-vesting/src.
pub mod State
pub mod Claim
pub mod Handlers
pub mod Staking
pub mod Schedule
pub mod Invariant
pub mod Query
