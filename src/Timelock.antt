-- ===== src/Timelock.antt =====
-- The timelock contract: contracts/finance/andromeda-timelock/src, with the types of
-- packages/andromeda-finance/src/timelock.rs.
pub mod State
pub mod Handlers
pub mod Totals
pub mod Locks
pub mod Calls
mod Keys
pub mod Release
pub mod Distinct
