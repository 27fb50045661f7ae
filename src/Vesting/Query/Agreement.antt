-- ===== src/Vesting/Query/Agreement.antt =====
-- What a query says can be claimed is what a claim pays.
use flexible_pay_crowdfund_a.Base.{
  ℕ, ◌≤◌, ◌≡◌, refl, ap, ◌∙◌, sym, true, none, some, [], ◌∷◌, leb, arith,
}
use flexible_pay_crowdfund_a.Chain.Result.{
  ok_injective, ok, WhenOk, WhenOk-ok, WhenOk-bind, or_err, or_err-eq-ok, not_found,
}
use flexible_pay_crowdfund_a.Chain.Dict.{may_load}
use flexible_pay_crowdfund_a.Chain.Message.{SubMsg, Response}
use flexible_pay_crowdfund_a.Chain.Deps.{Deps, Env, MessageInfo}
use flexible_pay_crowdfund_a.Chain.Time.{seconds}
use flexible_pay_crowdfund_a.Ado.Recipient.{generate_direct_msg}
use flexible_pay_crowdfund_a.Ado.Withdrawal.{get_amount}
use flexible_pay_crowdfund_a.Vesting.State.{Config, Batch, Store}
use flexible_pay_crowdfund_a.Vesting.Claim.{claim_batch, div_or_panic}
use flexible_pay_crowdfund_a.Vesting.Handlers.{execute_claim}
use flexible_pay_crowdfund_a.Vesting.Invariant.Handlers.{execute_claim-Paid}
use flexible_pay_crowdfund_a.Vesting.Query.{
  BatchResponse, available_to_claim, get_batch_response, query_batch,
}

module _ (deps : Deps) (env : Env) (store : Store) (batch_id : ℕ) where
  -- The batch and the configuration that a query reads, and what it computes from them.
  record Asked (resp : BatchResponse) : Type 0 where
    batch : Batch
    config : Config
    claimed : ℕ × Batch
    stored : may_load batch_id store.batches ≡ some batch
    configured : store.config ≡ some config
    computed : available_to_claim deps env config batch ≡ ok claimed
    answer : resp.amount_available_to_claim ≡ claimed.0

  asks : WhenOk Asked (query_batch deps env store batch_id)
  unfolding query_batch get_batch_response
  asks = WhenOk-bind Asked (or_err (may_load batch_id store.batches) not_found) _ λ b stored.
      WhenOk-bind Asked (or_err store.config not_found) _ λ config configured.
        WhenOk-bind Asked (available_to_claim deps env config b) _ λ r computed.
          WhenOk-bind Asked (get_amount r.1.release_amount r.1.amount) _ λ per _.
            WhenOk-bind Asked (div_or_panic r.0 per) _ λ n _. record {
              batch = b;
              config = config;
              claimed = r;
              stored = or_err-eq-ok (may_load batch_id store.batches) not_found stored;
              configured = or_err-eq-ok store.config not_found configured;
              computed = computed;
              answer = refl;
            }

unlocked_claim :
    (deps : Deps) (env : Env) (config : Config) (b : Batch)
    → b.lockup_end ≤ seconds env.block.time
    → available_to_claim deps env config b ≡ claim_batch deps env b config none
unfolding available_to_claim
unlocked_claim deps env config b h =
    let open_now : leb b.lockup_end (seconds env.block.time) ≡ true = ground arith in
    rw open_now refl

-- Where a query of a batch answers and a claim of all its periods succeeds, in the same block and
-- storage, the claim sends the recipient of the configuration one message, with exactly the amount
-- that the query said is available.
pub query_batch-execute_claim :
    (deps : Deps) (env : Env) (info : MessageInfo) (store : Store) (batch_id : ℕ) {config : Config}
    {resp : BatchResponse} {out : Store × Response}
    → store.config ≡ some config
    → query_batch deps env store batch_id ≡ ok resp
    → execute_claim deps env info store none batch_id ≡ ok out
    → (msg : SubMsg) × (generate_direct_msg deps config.recipient
          (record { denom = config.denom; amount = resp.amount_available_to_claim } ∷ [])
        ≡ ok msg)
      × (out.1 ≡ msg ∷ [])
query_batch-execute_claim deps env info store batch_id {config} {resp} {out} configured asked h =
    let q =
      WhenOk-ok (Asked deps env store batch_id) (query_batch deps env store batch_id)
        (asks deps env store batch_id) asked in
    let p = execute_claim-Paid deps env info store none batch_id h in
    let (_, _, _, _, c) = p.claimed in
    let same_batch : q.batch ≡ p.before = ground (arith, q.stored, p.stored) in
    let asked_config : q.config ≡ p.config = ground (arith, q.configured, p.configured) in
    let same_config : p.config ≡ config = ground (arith, configured, p.configured) in
    let runs : available_to_claim deps env q.config q.batch ≡ ok (p.amount, p.after) =
      (λ i. available_to_claim deps env (asked_config i) (same_batch i))
      ∙ unlocked_claim deps env p.config p.before c.unlocked
      ∙ p.called in
    let both : q.claimed ≡ (p.amount, p.after) = ok_injective (sym q.computed ∙ runs) in
    let amount : p.amount ≡ resp.amount_available_to_claim = sym (q.answer ∙ ap (λ r. r.0) both) in
    (
      p.msg,
      (λ i.
            generate_direct_msg deps (sym same_config i).recipient
              (record { denom = (sym same_config i).denom; amount = sym amount i } ∷ []))
          ∙ p.to_recipient,
      p.answered,
    )
