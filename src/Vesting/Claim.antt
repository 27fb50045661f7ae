-- ===== src/Vesting/Claim.antt =====
-- `claim_batch` of contracts/finance/andromeda-vesting/src/contract.rs.
use flexible_pay_crowdfund_a.Base.{ℕ, ◌/◌, Option, min, unwrap_or, leb, ◌==◌, if◌then◌else◌}
use flexible_pay_crowdfund_a.Chain.Result.{
  Result, ok, panicked, ◌>>=◌, ◌>>◌, ensure, funds_are_locked,
}
use flexible_pay_crowdfund_a.Chain.Uint.{u64_max, u128_max, checked_add, checked_mul, sub_or_panic}
use flexible_pay_crowdfund_a.Chain.Deps.{Deps, Env}
use flexible_pay_crowdfund_a.Chain.Time.{seconds}
use flexible_pay_crowdfund_a.Ado.Withdrawal.{get_amount}
use flexible_pay_crowdfund_a.Vesting.State.{Config, Batch}

-- Integer division; by zero it panics.
abbrev pub div_or_panic : ℕ → ℕ → Result ℕ
div_or_panic a b = if b == 0 then panicked else ok (a / b)

-- The writes to the batch, which are made if there is something to send.
unfoldable pub record_claim : Batch → ℕ → ℕ → Result Batch
record_claim batch amount_to_send number_of_claims = do
  amount_claimed ← checked_add u128_max batch.amount_claimed amount_to_send
  claims_release_unit ← checked_mul u64_max number_of_claims batch.release_unit
  new_claimed_release_time ← checked_add u64_max batch.last_claimed_release_time claims_release_unit
  ok (record batch {
    amount_claimed = amount_claimed;
    last_claimed_release_time = new_claimed_release_time;
  })

-- The amount to send, and the batch after the claim.
unfoldable pub claim_batch : Deps → Env → Batch → Config → Option ℕ → Result (ℕ × Batch)
unfolding record_claim
claim_batch deps env batch config number_of_claims = do
  let current_time = seconds env.block.time
  ensure (leb batch.lockup_end current_time) funds_are_locked
  amount_per_claim ← get_amount batch.release_amount batch.amount
  total_amount ← deps.balance env.contract_address config.denom
  elapsed_time ← sub_or_panic current_time batch.last_claimed_release_time
  num_available_claims ← div_or_panic elapsed_time batch.release_unit
  let number = min (unwrap_or number_of_claims num_available_claims) num_available_claims
  wanted ← checked_mul u128_max amount_per_claim number
  unclaimed ← sub_or_panic batch.amount batch.amount_claimed
  let amount_to_send = min wanted (min unclaimed total_amount)
  let recorded = record_claim batch amount_to_send number >>= λ b. ok (amount_to_send, b)
  if amount_to_send == 0 then ok (amount_to_send, batch) else recorded
