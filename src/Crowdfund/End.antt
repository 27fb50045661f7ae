-- ===== src/Crowdfund/End.antt =====
-- `execute_end_sale` of contracts/non-fungible-tokens/flexi-crowdfund/src/contract.rs.
use flexible_pay_crowdfund_a.Base.{ℕ, Bool, ◌&&◌, ◌||◌, Option, ltb, leb, ◌==◌, if◌then◌else◌}
use flexible_pay_crowdfund_a.Chain.Result.{
  Result, ◌>>=◌, ◌>>◌, ensure, or_err, not_found, no_ongoing_sale, sale_not_ended,
}
use flexible_pay_crowdfund_a.Chain.Message.{AmpPkt, Response}
use flexible_pay_crowdfund_a.Chain.Deps.{Deps, Env, MessageInfo}
use flexible_pay_crowdfund_a.Ado.Base.{is_contract_owner}
use flexible_pay_crowdfund_a.Crowdfund.State.{Store, State}
use flexible_pay_crowdfund_a.Crowdfund.Refund.{issue_refunds_and_burn_tokens}
use flexible_pay_crowdfund_a.Crowdfund.Transfer.{transfer_tokens_and_send_funds}

-- Who may end the sale, and when.
abbrev pub may_end : Deps → Env → State → ℕ → Bool → Bool
may_end deps env state number_of_tokens_available is_owner =
    deps.is_expired state.end_time env.block
    || (number_of_tokens_available == 0
        || (leb state.min_tokens_sold state.amount_sold && is_owner))

unfoldable pub execute_end_sale :
    Deps → Env → MessageInfo → Option AmpPkt → Store → Option ℕ → Result (Store × Response)
unfolding is_contract_owner
execute_end_sale deps env info amp_ctx store limit = do
  deps.nonpayable info.funds
  state ← or_err store.state no_ongoing_sale
  number_of_tokens_available ← or_err store.number_of_tokens_available not_found
  is_owner ← is_contract_owner store.ado info.sender
  ensure (may_end deps env state number_of_tokens_available is_owner) sale_not_ended
  if ltb state.amount_sold state.min_tokens_sold
      then issue_refunds_and_burn_tokens deps env store limit
      else transfer_tokens_and_send_funds deps env info amp_ctx store limit
