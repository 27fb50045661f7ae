-- ===== src/Vesting/Handlers.antt =====
-- `execute_create_batch`, `execute_claim` and `execute_claim_all` of
-- contracts/finance/andromeda-vesting/src/contract.rs.
use flexible_pay_crowdfund_a.Base.{
  ℕ, not, ◌&&◌, Option, none, some, List, [], ◌∷◌, min, unwrap_or, ltb, ◌==◌, if◌then◌else◌,
}
use flexible_pay_crowdfund_a.Chain.Result.{
  Result, ok, ◌>>=◌, ◌>>◌, ensure, or_err, not_found, unauthorized, withdrawal_is_empty,
  invalid_funds, invalid_zero_amount,
}
use flexible_pay_crowdfund_a.Chain.Uint.{u64_max, u128_max, checked_add, add_or_panic, sub_or_panic}
use flexible_pay_crowdfund_a.Chain.Coin.{single_coin}
use flexible_pay_crowdfund_a.Chain.Dict.{Dict, may_load, save}
use flexible_pay_crowdfund_a.Chain.Message.{Response}
use flexible_pay_crowdfund_a.Chain.Deps.{Deps, Env, MessageInfo}
use flexible_pay_crowdfund_a.Chain.Time.{seconds}
use flexible_pay_crowdfund_a.Ado.Base.{is_contract_owner, is_owner_or_operator}
use flexible_pay_crowdfund_a.Ado.Recipient.{generate_direct_msg}
use flexible_pay_crowdfund_a.Ado.Withdrawal.{WithdrawalType, is_zero}
use flexible_pay_crowdfund_a.Vesting.State.{
  Config, Batch, Store, save_new_batch, get_claimable_batches_with_ids,
}
use flexible_pay_crowdfund_a.Vesting.Claim.{claim_batch, div_or_panic}
use flexible_pay_crowdfund_a.Vesting.Staking.{execute_delegate}

-- The arguments of `CreateBatch`.
pub record CreateBatch : Type 0 where
  pub lockup_duration : Option ℕ
  pub release_unit : ℕ
  pub release_amount : WithdrawalType
  pub validator_to_delegate_to : Option ℕ

abbrev pub lockup_end_at : ℕ → Option ℕ → Result ℕ
lockup_end_at current_time none = ok current_time
lockup_end_at current_time (some duration) = add_or_panic u64_max current_time duration

abbrev pub new_batch : CreateBatch → ℕ → ℕ → Batch
new_batch msg amount lockup_end = record {
  amount = amount;
  amount_claimed = 0;
  lockup_end = lockup_end;
  release_unit = msg.release_unit;
  release_amount = msg.release_amount;
  last_claimed_release_time = lockup_end;
}

abbrev pub delegate_if : Deps → Env → MessageInfo → Store → ℕ → Option ℕ → Result Response
delegate_if deps env info store amount none = ok []
delegate_if deps env info store amount (some validator) =
    execute_delegate deps env info store (some amount) validator

unfoldable pub execute_create_batch :
    Deps → Env → MessageInfo → Store → CreateBatch → Result (Store × Response)
unfolding single_coin is_owner_or_operator save_new_batch
execute_create_batch deps env info store msg = do
  is_owner ← is_owner_or_operator store.ado info.sender
  ensure is_owner unauthorized
  config ← or_err store.config not_found
  funds ← single_coin info.funds
  ensure (funds.denom == config.denom) invalid_funds
  ensure (not (funds.amount == 0)) invalid_funds
  ensure (ltb 0 msg.release_unit && not (is_zero msg.release_amount)) invalid_zero_amount
  lockup_end ← lockup_end_at (seconds env.block.time) msg.lockup_duration
  store' ← save_new_batch store (new_batch msg funds.amount lockup_end) config
  delegated ← delegate_if deps env info store' funds.amount msg.validator_to_delegate_to
  ok (store', delegated)

unfoldable pub execute_claim :
    Deps → Env → MessageInfo → Store → Option ℕ → ℕ → Result (Store × Response)
execute_claim deps env info store number_of_claims batch_id = do
  is_owner ← is_contract_owner store.ado info.sender
  ensure is_owner unauthorized
  config ← or_err store.config not_found
  batch ← or_err (may_load batch_id store.batches) not_found
  (amount_to_send, batch') ← claim_batch deps env batch config number_of_claims
  ensure (not (amount_to_send == 0)) withdrawal_is_empty
  withdraw_msg ←
      generate_direct_msg deps config.recipient
        (record { denom = config.denom; amount = amount_to_send } ∷ [])
  -- the attribute `amount_left`
  amount_left ← sub_or_panic batch'.amount batch'.amount_claimed
  ok (record store { batches = save batch_id batch' store.batches }, withdraw_msg ∷ [])

-- The loop of `execute_claim_all`. It writes the batch alone, as `execute_claim` does: the path
-- `batches().key(id)` goes past the index.
unfoldable pub claim_loop :
    Deps → Env → Config → ℕ → List (ℕ × Batch) → Dict Batch × ℕ → Result (Dict Batch × ℕ)
claim_loop deps env config up_to_time [] acc = ok acc
claim_loop deps env config up_to_time ((batch_id, batch) ∷ rest) (batches, total) = do
  elapsed_time ← sub_or_panic up_to_time batch.last_claimed_release_time
  num_available_claims ← div_or_panic elapsed_time batch.release_unit
  (amount_to_send, batch') ← claim_batch deps env batch config (some num_available_claims)
  total' ← checked_add u128_max total amount_to_send
  claim_loop deps env config up_to_time rest (save batch_id batch' batches, total')

-- One message for all batches, if there is anything to send.
unfoldable pub withdraw_total : Deps → Config → ℕ → Result Response
withdraw_total deps config total =
    let sending = (do
      m ←
          generate_direct_msg deps config.recipient
            (record { denom = config.denom; amount = total } ∷ [])
      ok (m ∷ [])) in
    if total == 0 then ok [] else sending

unfoldable pub execute_claim_all :
    Deps → Env → MessageInfo → Store → Option ℕ → Option ℕ → Result (Store × Response)
unfolding claim_loop withdraw_total
execute_claim_all deps env info store limit up_to_time = do
  deps.nonpayable info.funds
  is_owner ← is_contract_owner store.ado info.sender
  ensure is_owner unauthorized
  config ← or_err store.config not_found
  let current_time = seconds env.block.time
  batches_with_ids ← get_claimable_batches_with_ids store current_time limit
  let until = min current_time (unwrap_or up_to_time current_time)
  (batches, total) ← claim_loop deps env config until batches_with_ids (store.batches, 0)
  msgs ← withdraw_total deps config total
  ok (record store { batches = batches }, msgs)
