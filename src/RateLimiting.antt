-- ===== src/RateLimiting.antt =====
-- The contract for rate-limited withdrawals: contracts/finance/andromeda-rate-limiting-withdrawals/src,
-- with the types of packages/andromeda-finance/src/rate_limiting_withdrawals.rs.
pub mod Handlers
pub mod Accounts
pub mod Frequency
pub mod Calls
pub mod Takeover
