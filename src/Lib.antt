-- ===== src/Lib.antt =====
-- Verification of the crowdfund, auction, vesting, timelock, splitter (two of them) and
-- rate-limiting contracts of the Flexible Pay Crowdfund App, and of the helpers of the standard
-- package that they stand on.
--
-- The program is a set of CosmWasm contracts. A contract keeps its items and maps in the chain's
-- storage; a handler reads them, checks the call, writes, and answers with messages that the chain
-- carries out afterwards. A handler is here a function from the storage and the call to a
-- `Result`: the new storage with the messages, an error, or a panic. Either failure makes the
-- chain drop every write, so a failure carries no storage.
--
-- Parts, by file:
-- - Chain: what every contract uses. Chain/Result is `Result<_, ContractError>` of
--   packages/std/src/error.rs with panics as a third outcome; Chain/Uint the checked and the
--   panicking arithmetic (the release profile has overflow checks on); Chain/Coin and Chain/Merge
--   the helpers of packages/std/src/common/mod.rs; Chain/Time those of common/expiration.rs and
--   common/milliseconds.rs; Chain/Message the messages and packets of amp/messages.rs; Chain/Dict
--   a storage map, as entries in ascending order of the key; Chain/Deps what a call comes with.
-- - Ado: the base that all contracts share. Ado/Base and Ado/Ownership are
--   packages/std/src/ado_contract/ownership.rs; Ado/Modules the modules that are asked on a
--   transfer of funds (ado_contract/modules/mod.rs); Ado/Permissioning who may perform an action
--   (ado_contract/permissioning.rs and ado_base/permissioning.rs); Ado/Recipient amp/recipient.rs;
--   Ado/Rates common/rates.rs; Ado/Withdrawal common/withdraw.rs.
-- - Crowdfund: contracts/non-fungible-tokens/flexi-crowdfund/src. State is state.rs; Mint, Sale,
--   Refund, Transfer and End are the handlers of contract.rs, one function to each, and the parts
--   of the long ones in the order of the source. Invariant says what a valid storage is.
-- - Vesting: contracts/finance/andromeda-vesting/src. State is state.rs, with the index of the
--   batches as a map of its own, since claims write the batches past it; Claim, Handlers, Staking
--   and Query are contract.rs; Schedule says what a batch that is paid by its schedule is, and
--   Invariant that every stored one is.
-- - Auction: contracts/non-fungible-tokens/andromeda-auction/src. State is state.rs and the
--   lookups of contract.rs; Opening, Handlers and Query are contract.rs; Bidding follows one bid
--   and rows of bids, Claim and Cancel the two ends of an auction, Invariant says what a valid
--   storage is, and Reachable takes all calls as steps.
-- - Timelock: contracts/finance/andromeda-timelock/src. State is state.rs with the escrows of
--   packages/andromeda-finance/src/timelock.rs, Handlers contract.rs; Totals and Calls count what
--   is held and sent, Locks and Release say what is released and what is not, and Distinct what
--   the check of minimum funds means.
-- - Splitter: contracts/finance/andromeda-splitter/src. State is
--   packages/andromeda-finance/src/splitter.rs, Handlers contract.rs; Shares, Send and Total
--   follow the funds.
-- - WeightedSplitter: contracts/finance/andromeda-weighted-distribution-splitter/src. Recipients
--   is packages/andromeda-finance/src/weighted_splitter.rs and the vector operations, Handlers
--   contract.rs, and Send follows the funds.
-- - RateLimiting: contracts/finance/andromeda-rate-limiting-withdrawals/src. Handlers is state.rs
--   and contract.rs; Accounts and Calls follow deposits and withdrawals on one's own account,
--   Frequency two withdrawals in succession, and Takeover a deposit for somebody else.
-- - Tests: a small chain, and the theorems at concrete inputs on it.
--
-- A purchase of the crowdfund asks the rates modules (Ado/Modules) what they take of the price,
-- adds what is left to the funds of the recipient and keeps the modules' messages with the
-- purchase. When the sale ends, rounds of transfers send the tokens and those messages, and then
-- the funds; or, if too few were sold, rounds of refunds pay the buyers back and burn the tokens.
-- An auction asks the same modules once, when the winning bid is paid out, and the base
-- (Ado/Permissioning) whether a token contract may start one.
--
-- Code outside of the repository's contracts and of its standard package is a parameter: the
-- record `Deps` of Chain/Deps holds the answers of other contracts (the rates modules' hook and
-- the CW721 contract), of the bank and staking queries, the cw library functions `nonpayable`,
-- `one_coin`, `has_coins`, `is_expired` and the order of expirations, and the concatenation of two
-- texts, of which keys are made. The resolution of addresses (packages/std/src/amp/addresses.rs,
-- and the lookups of the kernel and the VFS behind it) is a part of `Deps` too, since it is the
-- answer of those contracts. A theorem that needs an answer has it as a hypothesis. Texts
-- (addresses, denominations, token ids, binaries) are numbers: the code only compares them, and
-- orders them as keys.
--
-- Integers are natural numbers with the bound of their width at every operation that can go over
-- it: 2^32 - 1, 2^64 - 1 or 2^128 - 1. The casts that can cut a number, `purchases.len() as u32`
-- and `x as usize` on the 32-bit machine, keep their remainder. Two sums of times in seconds are
-- taken as exact, since a block's time in nanoseconds is a `u64`. Every loop runs over a list, by
-- structural recursion; there is no fuel.
--
-- Not modelled: attributes and events, which are only logged; the instantiation of the base,
-- migration, replies and the packets that arrive from other contracts; what handle_execute does
-- around its match (call_action); the texts of errors; the lines in front of the contract proper
-- in flexi-crowdfund/src/contract.rs, unfinished declarations that the contract does not use; and
-- the other contracts of the repository.
pub mod Base
pub mod Chain
pub mod Ado
pub mod Crowdfund
pub mod Vesting
pub mod Auction
pub mod Timelock
pub mod Splitter
pub mod RateLimiting
pub mod WeightedSplitter
pub mod Tests
