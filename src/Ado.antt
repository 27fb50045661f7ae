-- ===== src/Ado.antt =====
-- What the contracts share of the ADO base: ownership, the registered modules with their transfer
-- hook, recipients, and the tax that the hook's messages amount to.
pub mod Base
pub mod Ownership
pub mod Permissioning
pub mod Modules
pub mod Recipient
pub mod Rates
pub mod Withdrawal
