-- ===== src/Chain.antt =====
-- What every contract of the repository is written against: results with errors and panics,
-- fixed-width arithmetic, coins, storage maps, messages, block time and the handle `Deps`.
pub mod Result
pub mod Uint
pub mod Coin
pub mod Dict
pub mod Message
pub mod Outflow
pub mod Deps
pub mod Time
pub mod Merge
