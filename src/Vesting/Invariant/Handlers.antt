-- ===== src/Vesting/Invariant/Handlers.antt =====
-- The handlers of the vesting contract keep every batch on its schedule, and a claim pays the
-- recipient what it counts.
use flexible_pay_crowdfund_a.Base.{
  ℕ, take, ◌<◌, ◌≡◌, ap, refl, ◌∙◌, Option, some, List, [], ◌∷◌, min, unwrap_or, arith, true, ◌==◌,
  not,
}
use flexible_pay_crowdfund_a.Chain.Result.{
  ok, WhenOk, WhenOk-ok, WhenOk-bind, ensure, ensure-eq-ok, or_err, or_err-eq-ok, not_found,
  unauthorized, withdrawal_is_empty,
}
use flexible_pay_crowdfund_a.Chain.Uint.{u128_max, checked_add, sub_or_panic}
use flexible_pay_crowdfund_a.Chain.Dict.{Dict, may_load, save, save-IsSorted}
use flexible_pay_crowdfund_a.Chain.Coin.{Coin}
use flexible_pay_crowdfund_a.Chain.Message.{SubMsg, Response}
use flexible_pay_crowdfund_a.Chain.Deps.{Deps, Env, MessageInfo}
use flexible_pay_crowdfund_a.Chain.Time.{seconds}
use flexible_pay_crowdfund_a.Ado.Base.{is_contract_owner}
use flexible_pay_crowdfund_a.Ado.Recipient.{generate_direct_msg}
use flexible_pay_crowdfund_a.Vesting.State.{
  Config, Batch, Store, load_batches, claimable_entries, get_claimable_batches_with_ids,
  default_limit, max_limit,
}
use flexible_pay_crowdfund_a.Vesting.Claim.{claim_batch, div_or_panic}
use flexible_pay_crowdfund_a.Vesting.Handlers.{
  execute_claim, claim_loop, withdraw_total, execute_claim_all,
}
use flexible_pay_crowdfund_a.Vesting.Schedule.{Answers, claim-Answers}
use flexible_pay_crowdfund_a.Vesting.Invariant.{
  AllOnSchedule, IsValid, save-AllOnSchedule, may_load-OnSchedule, load_batches-AllOnSchedule,
  claim_batch-OnSchedule,
}
use flexible_pay_crowdfund_a.Vesting.Invariant.Saving.{AreValid, save-AreValid}

claim_loop-AreValid :
    (deps : Deps) (env : Env) (config : Config) (until : ℕ) (bs : List (ℕ × Batch)) (d : Dict Batch)
    (total : ℕ)
    → AllOnSchedule bs
    → AreValid d
    → WhenOk (λ r. AreValid r.0) (claim_loop deps env config until bs (d, total))
unfolding claim_loop
claim_loop-AreValid deps env config until [] d total all v = v
claim_loop-AreValid deps env config until ((id, b) ∷ bs) d total all v =
    let After : Dict Batch × ℕ → Type 0 = λ r. AreValid r.0 in
    WhenOk-bind After (sub_or_panic until b.last_claimed_release_time) _ λ elapsed _.
      WhenOk-bind After (div_or_panic elapsed b.release_unit) _ λ periods _.
        WhenOk-bind After (claim_batch deps env b config (some periods)) _ λ r claimed.
          WhenOk-bind After (checked_add u128_max total r.0) _ λ total' _.
            let kept = claim_batch-OnSchedule deps env b config (some periods) all.0 claimed in
            claim_loop-AreValid deps env config until bs (save id r.1 d) total' all.1
              (save-AreValid id r.1 d kept v)

-- What a successful claim has done: the recipient of the contract's configuration gets, in one
-- message, what the batch's claim pays, which is not zero; that batch is written, and nothing else.
pub record Paid (deps : Deps) (env : Env) (info : MessageInfo) (store : Store)
    (number_of_claims : Option ℕ) (batch_id : ℕ) (out : Store × Response) : Type 0 where
  pub config : Config
  pub before : Batch
  pub after : Batch
  pub amount : ℕ
  pub msg : SubMsg
  pub configured : store.config ≡ some config
  pub by_owner : is_contract_owner store.ado info.sender ≡ ok true
  pub stored : may_load batch_id store.batches ≡ some before
  pub claimed : Answers deps env config before (amount, after)
  pub called : claim_batch deps env before config number_of_claims ≡ ok (amount, after)
  pub positive : 0 < amount
  pub to_recipient :
      generate_direct_msg deps config.recipient
        (record { denom = config.denom; amount = amount } ∷ [])
      ≡ ok msg
  pub written : out.0 ≡ record store { batches = save batch_id after store.batches }
  pub answered : out.1 ≡ msg ∷ []

nonzero : (n : ℕ) → not (n == 0) ≡ true → 0 < n
nonzero n h = ground arith

module _ (deps : Deps) (env : Env) (info : MessageInfo) (store : Store) where
  claims :
      (number_of_claims : Option ℕ) (batch_id : ℕ)
      → WhenOk
          (Paid deps env info store number_of_claims batch_id)
          (execute_claim deps env info store number_of_claims batch_id)
  unfolding execute_claim
  claims number_of_claims batch_id =
      let After = Paid deps env info store number_of_claims batch_id in
      WhenOk-bind After (is_contract_owner store.ado info.sender) _ λ is_owner owner.
        WhenOk-bind After (ensure is_owner unauthorized) _ λ _ is_true.
          WhenOk-bind After (or_err store.config not_found) _ λ config configured.
            WhenOk-bind After (or_err (may_load batch_id store.batches) not_found) _ λ b stored.
              WhenOk-bind After (claim_batch deps env b config number_of_claims) _ λ r claimed.
                WhenOk-bind After (ensure (not (r.0 == 0)) withdrawal_is_empty) _ λ _ something.
                  let coin : Coin = record { denom = config.denom; amount = r.0 } in
                  WhenOk-bind After (generate_direct_msg deps config.recipient (coin ∷ [])) _
                    λ msg sent.
                      WhenOk-bind After (sub_or_panic r.1.amount r.1.amount_claimed) _ λ _ _.
                        record {
                          config = config;
                          before = b;
                          after = r.1;
                          amount = r.0;
                          msg = msg;
                          configured = or_err-eq-ok store.config not_found configured;
                          by_owner = owner ∙ ap ok (ensure-eq-ok _ unauthorized is_true);
                          stored = or_err-eq-ok (may_load batch_id store.batches) not_found stored;
                          claimed =
                              WhenOk-ok (Answers deps env config b) _
                                (claim-Answers deps env b config number_of_claims) claimed;
                          called = claimed;
                          positive = nonzero r.0 (ensure-eq-ok _ withdrawal_is_empty something);
                          to_recipient = sent;
                          written = refl;
                          answered = refl;
                        }

  -- A claim pays the recipient, in one message, exactly the amount by which the batch's claimed
  -- amount grows, which is not zero and within the bounds of `Claimed`; only the owner can make it,
  -- and it writes that batch and nothing else.
  pub execute_claim-Paid :
      (number_of_claims : Option ℕ) (batch_id : ℕ) {out : Store × Response}
      → execute_claim deps env info store number_of_claims batch_id ≡ ok out
      → Paid deps env info store number_of_claims batch_id out
  execute_claim-Paid number_of_claims batch_id h =
      WhenOk-ok (Paid deps env info store number_of_claims batch_id)
        (execute_claim deps env info store number_of_claims batch_id)
        (claims number_of_claims batch_id) h

  -- Claiming from one batch keeps every batch on its schedule.
  pub execute_claim-IsValid :
      (number_of_claims : Option ℕ) (batch_id : ℕ) {out : Store × Response}
      → IsValid store
      → execute_claim deps env info store number_of_claims batch_id ≡ ok out
      → IsValid out.0
  execute_claim-IsValid number_of_claims batch_id v h =
      let c = execute_claim-Paid number_of_claims batch_id h in
      let before = may_load-OnSchedule batch_id store.batches v.scheduled c.stored in
      let kept =
        claim_batch-OnSchedule deps env c.before c.config number_of_claims before c.called in
      rw c.written (record {
        sorted = save-IsSorted batch_id c.after store.batches v.sorted;
        scheduled = save-AllOnSchedule batch_id c.after store.batches kept v.scheduled;
      })

  claims_all :
      (limit up_to_time : Option ℕ)
      → IsValid store
      → WhenOk (λ out. IsValid out.0) (execute_claim_all deps env info store limit up_to_time)
  unfolding execute_claim_all get_claimable_batches_with_ids
  claims_all limit up_to_time v =
      let After : Store × Response → Type 0 = λ out. IsValid out.0 in
      let now = seconds env.block.time in
      let until = min now (unwrap_or up_to_time now) in
      let n = min (unwrap_or limit default_limit) max_limit in
      let entries = take n (claimable_entries now store.claim_time) in
      WhenOk-bind After (deps.nonpayable info.funds) _ λ _ _.
        WhenOk-bind After (is_contract_owner store.ado info.sender) _ λ is_owner _.
          WhenOk-bind After (ensure is_owner unauthorized) _ λ _ _.
            WhenOk-bind After (or_err store.config not_found) _ λ config _.
              WhenOk-bind After (load_batches store.batches entries) _ λ bs loaded.
                WhenOk-bind After (claim_loop deps env config until bs (store.batches, 0)) _
                  λ r looped. WhenOk-bind After (withdraw_total deps config r.1) _ λ msgs _.
                    let all =
                      WhenOk-ok AllOnSchedule _
                        (load_batches-AllOnSchedule store.batches entries v.scheduled) loaded in
                    let start : AreValid store.batches = record {
                      sorted = v.sorted;
                      scheduled = v.scheduled;
                    } in
                    let w =
                      WhenOk-ok (λ r. AreValid r.0) _
                        (claim_loop-AreValid deps env config until bs store.batches 0 all start)
                        looped in
                    record { sorted = w.sorted; scheduled = w.scheduled }

  -- Claiming from all batches, up to whatever time and limit, keeps every batch on its schedule.
  pub execute_claim_all-IsValid :
      (limit up_to_time : Option ℕ) {out : Store × Response}
      → IsValid store
      → execute_claim_all deps env info store limit up_to_time ≡ ok out
      → IsValid out.0
  execute_claim_all-IsValid limit up_to_time v h =
      WhenOk-ok (λ out. IsValid out.0) (execute_claim_all deps env info store limit up_to_time)
        (claims_all limit up_to_time v) h
