-- ===== src/Chain/Deps.antt =====
-- What a handler is called with: the block, the message's sender and funds, and the handle `Deps`
-- to everything that is not the contract's own code. The fields of `Deps` are the answers of other
-- contracts, of the address service and of the cw libraries at the time of the call.
use flexible_pay_crowdfund_a.Base.{ℕ, Bool, Option, List}
use flexible_pay_crowdfund_a.Chain.Result.{Result}
use flexible_pay_crowdfund_a.Chain.Coin.{Coin, Funds}
use flexible_pay_crowdfund_a.Chain.Message.{SubMsg}

-- The text without a letter.
abbrev pub empty_text : ℕ
empty_text = 0

-- Height, and time in nanoseconds.
pub record BlockInfo : Type 0 where
  pub height : ℕ
  pub time : ℕ

-- `cw_utils::Expiration`
pub data Expiration : Type 0 where
  at_height at_time : ℕ → Expiration
  never : Expiration

pub record Env : Type 0 where
  pub block : BlockInfo
  pub contract_address : ℕ

pub record MessageInfo : Type 0 where
  pub sender : ℕ
  pub funds : List Coin

-- `OnFundsTransferResponse` (packages/std/src/ado_base/hooks.rs), without its events
pub record OnFundsTransferResponse : Type 0 where
  pub msgs : List SubMsg
  pub leftover_funds : Funds

-- `Result<Option<T>, StdError>` of a smart query. The flag of `not_found` tells whether the error's
-- kind contains the word "operation".
pub data Answer (A : Type 0) : Type 0 where
  answered : Option A → Answer A
  not_found : Bool → Answer A
  failed : ℕ → Answer A

pub record Deps : Type 0 where
  -- `cw_utils::nonpayable`, `cw_utils::one_coin`, `cosmwasm_std::has_coins`
  pub nonpayable : List Coin → Result (Unit {0})
  pub one_coin : List Coin → Result Coin
  pub has_coins : List Coin → Coin → Bool
  -- `Expiration::is_expired`, and `>` on expirations
  pub is_expired : Expiration → BlockInfo → Bool
  pub later : Expiration → Expiration → Bool
  -- the concatenation of two texts
  pub concat : ℕ → ℕ → ℕ
  -- `Api::addr_validate`
  pub addr_validate : ℕ → Result ℕ
  -- `AndrAddr`: `validate`, `get_raw_address`, and the lookups through the address service
  pub validate : ℕ → Result (Unit {0})
  pub get_raw_address : ℕ → Result ℕ
  pub get_vfs_address : Result ℕ
  pub get_raw_address_from_vfs : ℕ → ℕ → Result ℕ
  pub validate_andr_addresses : List ℕ → Result (Unit {0})
  pub is_local_path : ℕ → Bool
  pub local_path_to_vfs_path : ℕ → ℕ → Result ℕ
  -- the hook query `OnFundsTransfer` to a module's address, with the sender and the funds
  pub funds_transfer : ℕ → ℕ → Funds → Answer OnFundsTransferResponse
  -- `ContractInfo` of a CW721 contract succeeds; `Tokens` of one, for an owner, with a limit
  pub is_cw721 : ℕ → Bool
  pub tokens : ℕ → ℕ → ℕ → Result (List ℕ)
  -- `OwnerOf` of a CW721 contract, for a token; the bank's supply of a denomination
  pub owner_of : ℕ → ℕ → Result ℕ
  pub query_supply : ℕ → Result ℕ
  -- the bank's balance of an address in a denomination
  pub balance : ℕ → ℕ → Result ℕ
  -- what a delegator has staked with a validator, if anything, and all its validators
  pub delegation : ℕ → ℕ → Result (Option ℕ)
  pub all_delegations : ℕ → Result (List ℕ)
