-- ===== src/Vesting/Staking.antt =====
-- The staking and governance handlers of contracts/finance/andromeda-vesting/src/contract.rs. None of
-- them writes to the storage; they answer with messages.
use flexible_pay_crowdfund_a.Base.{ℕ, Option, [], ◌∷◌, map, min, unwrap_or, not, ◌==◌}
use flexible_pay_crowdfund_a.Chain.Result.{
  Result, ok, ◌>>=◌, ◌>>◌, ensure, or_err, not_found, unauthorized, invalid_zero_amount,
}
use flexible_pay_crowdfund_a.Chain.Coin.{Coin}
use flexible_pay_crowdfund_a.Chain.Message.{
  CosmosMsg, staking, distribution, gov_vote, delegate, redelegate, undelegate,
  set_withdraw_address, withdraw_delegator_reward, VoteOption, Response, add_messages,
}
use flexible_pay_crowdfund_a.Chain.Deps.{Deps, Env, MessageInfo}
use flexible_pay_crowdfund_a.Ado.Base.{is_contract_owner}
use flexible_pay_crowdfund_a.Vesting.State.{Store}

abbrev pub get_set_withdraw_address_msg : ℕ → CosmosMsg
get_set_withdraw_address_msg address = distribution (set_withdraw_address address)

abbrev pub get_amount_delegated : Deps → ℕ → ℕ → Result ℕ
get_amount_delegated deps delegator validator = do
  res ← deps.delegation delegator validator
  ok (unwrap_or res 0)

-- `cmp::min(max_amount, amount.unwrap_or(max_amount))`
abbrev pub capped : Option ℕ → ℕ → ℕ
capped amount max_amount = min max_amount (unwrap_or amount max_amount)

unfoldable pub execute_delegate : Deps → Env → MessageInfo → Store → Option ℕ → ℕ → Result Response
execute_delegate deps env info store amount validator = do
  is_owner ← is_contract_owner store.ado info.sender
  ensure is_owner unauthorized
  config ← or_err store.config not_found
  max_amount ← deps.balance env.contract_address config.denom
  let coin : Coin = record { denom = config.denom; amount = capped amount max_amount }
  ensure (not (coin.amount == 0)) invalid_zero_amount
  ok (
      add_messages []
        (get_set_withdraw_address_msg info.sender ∷ staking (delegate validator coin) ∷ []))

unfoldable pub execute_redelegate :
    Deps → Env → MessageInfo → Store → Option ℕ → ℕ → ℕ → Result Response
execute_redelegate deps env info store amount from to = do
  is_owner ← is_contract_owner store.ado info.sender
  ensure is_owner unauthorized
  config ← or_err store.config not_found
  max_amount ← get_amount_delegated deps env.contract_address from
  let coin : Coin = record { denom = config.denom; amount = capped amount max_amount }
  ensure (not (coin.amount == 0)) invalid_zero_amount
  ok (
      add_messages []
        (get_set_withdraw_address_msg info.sender ∷ staking (redelegate from to coin) ∷ []))

unfoldable pub execute_undelegate :
    Deps → Env → MessageInfo → Store → Option ℕ → ℕ → Result Response
execute_undelegate deps env info store amount validator = do
  is_owner ← is_contract_owner store.ado info.sender
  ensure is_owner unauthorized
  config ← or_err store.config not_found
  max_amount ← get_amount_delegated deps env.contract_address validator
  let coin : Coin = record { denom = config.denom; amount = capped amount max_amount }
  ensure (not (coin.amount == 0)) invalid_zero_amount
  ok (
      add_messages []
        (get_set_withdraw_address_msg info.sender ∷ staking (undelegate validator coin) ∷ []))

unfoldable pub execute_withdraw_rewards : Deps → Env → MessageInfo → Store → Result Response
execute_withdraw_rewards deps env info store = do
  deps.nonpayable info.funds
  is_owner ← is_contract_owner store.ado info.sender
  ensure is_owner unauthorized
  validators ← deps.all_delegations env.contract_address
  ok (
      add_messages [] (
        get_set_withdraw_address_msg info.sender
        ∷ map (λ v. distribution (withdraw_delegator_reward v)) validators))

unfoldable pub execute_vote : Deps → MessageInfo → Store → ℕ → VoteOption → Result Response
execute_vote deps info store proposal_id vote = do
  deps.nonpayable info.funds
  is_owner ← is_contract_owner store.ado info.sender
  ensure is_owner unauthorized
  ok (add_messages [] (gov_vote proposal_id vote ∷ []))
