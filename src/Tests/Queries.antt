-- ===== src/Tests/Queries.antt =====
-- A query of the batch of `Batches`, and the claim of what it says is available.
use flexible_pay_crowdfund_a.Base.{◌≡◌, refl, none, [], ◌∷◌}
use flexible_pay_crowdfund_a.Chain.Result.{ok}
use flexible_pay_crowdfund_a.Chain.Dict.{save}
use flexible_pay_crowdfund_a.Chain.Message.{SubMsg, Response}
use flexible_pay_crowdfund_a.Ado.Base.{is_contract_owner}
use flexible_pay_crowdfund_a.Ado.Recipient.{generate_direct_msg}
use flexible_pay_crowdfund_a.Ado.Withdrawal.{WithdrawalType, get_amount}
use flexible_pay_crowdfund_a.Vesting.State.{Store}
use flexible_pay_crowdfund_a.Vesting.Claim.{claim_batch, record_claim}
use flexible_pay_crowdfund_a.Vesting.Handlers.{execute_claim}
use flexible_pay_crowdfund_a.Vesting.Query.{
  BatchResponse, available_to_claim, get_batch_response, query_batch,
}
use flexible_pay_crowdfund_a.Vesting.Query.Agreement.{query_batch-execute_claim}
use flexible_pay_crowdfund_a.Tests.{value_or, coin, deps, at_second, to_charity}
use flexible_pay_crowdfund_a.Tests.Batches.{vesting, owner}

abbrev answer : BatchResponse
answer = record {
  id = 1;
  amount = 1000;
  amount_claimed = 30;
  amount_available_to_claim = 60;
  number_of_available_claims = 2;
  lockup_end = 100;
  release_unit = 10;
  release_amount = WithdrawalType.amount 30;
  last_claimed_release_time = 110;
}

answered : query_batch deps (at_second 135) vesting 1 ≡ ok answer
unfolding query_batch get_batch_response available_to_claim claim_batch record_claim get_amount
answered = refl

abbrev after_full_claim : Store × Response
after_full_claim = value_or (vesting, []) (execute_claim deps (at_second 135) owner vesting none 1)

full_claim_succeeds : execute_claim deps (at_second 135) owner vesting none 1 ≡ ok after_full_claim
unfolding execute_claim is_contract_owner claim_batch record_claim get_amount save
    generate_direct_msg
full_claim_succeeds = refl

query_batch-execute_claim_example :
    (msg : SubMsg) × (generate_direct_msg deps to_charity (coin 1 60 ∷ []) ≡ ok msg)
    × (after_full_claim.1 ≡ msg ∷ [])
query_batch-execute_claim_example =
    query_batch-execute_claim deps (at_second 135) owner vesting 1 refl answered full_claim_succeeds
