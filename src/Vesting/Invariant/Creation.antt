-- ===== src/Vesting/Invariant/Creation.antt =====
-- Creating a batch.
use flexible_pay_crowdfund_a.Base.{
  ℕ, ◌<◌, ◌≡◌, unwrap_or, arith, Bool, true, ltb, ◌==◌, not, ◌&&◌, ◌||◌,
}
use flexible_pay_crowdfund_a.Chain.Result.{
  ok, WhenOk, WhenOk-ok, WhenOk-bind, ensure, ensure-eq-ok, or_err, not_found, unauthorized,
  invalid_funds, invalid_zero_amount, multi_batch_not_supported,
}
use flexible_pay_crowdfund_a.Chain.Uint.{add_or_panic, u64_max}
use flexible_pay_crowdfund_a.Chain.Message.{Response}
use flexible_pay_crowdfund_a.Chain.Coin.{single_coin}
use flexible_pay_crowdfund_a.Chain.Deps.{Deps, Env, MessageInfo}
use flexible_pay_crowdfund_a.Chain.Time.{seconds}
use flexible_pay_crowdfund_a.Ado.Base.{is_owner_or_operator}
use flexible_pay_crowdfund_a.Ado.Withdrawal.{is_zero}
use flexible_pay_crowdfund_a.Vesting.State.{Config, Batch, Store, claim_time_of, save_new_batch}
use flexible_pay_crowdfund_a.Vesting.Handlers.{
  CreateBatch, lockup_end_at, new_batch, delegate_if, execute_create_batch,
}
use flexible_pay_crowdfund_a.Vesting.Invariant.{OnSchedule, IsValid}
use flexible_pay_crowdfund_a.Vesting.Invariant.Saving.{AreValid, save-AreValid}

-- A batch that was just made is on schedule: nothing is paid after no period.
new_batch-OnSchedule :
    (msg : CreateBatch) (amount lockup_end : ℕ)
    → 0 < msg.release_unit
    → OnSchedule (new_batch msg amount lockup_end)
new_batch-OnSchedule msg amount lockup_end h =
    (0, record { last = omega arith; released = omega arith; covered = omega arith; paced = h })

positive_unit : (n : ℕ) (b : Bool) → (ltb 0 n && b) ≡ true → 0 < n
positive_unit n b h = ground arith

save_new_batch-IsValid :
    (store : Store) (b : Batch) (config : Config)
    → OnSchedule b
    → IsValid store
    → WhenOk IsValid (save_new_batch store b config)
unfolding save_new_batch
save_new_batch-IsValid store b config h v =
    let id = unwrap_or store.next_id 1 in
    let start : AreValid store.batches = record { sorted = v.sorted; scheduled = v.scheduled } in
    WhenOk-bind IsValid
      (ensure (id == 1 || config.is_multi_batch_enabled) multi_batch_not_supported) _
      λ _ _. WhenOk-bind IsValid (claim_time_of b) _ λ _ _.
        WhenOk-bind IsValid (add_or_panic u64_max id 1) _ λ _ _.
          let w = save-AreValid id b store.batches h start in
          record { sorted = w.sorted; scheduled = w.scheduled }

module _ (deps : Deps) (env : Env) (info : MessageInfo) (store : Store) (msg : CreateBatch) where
  creates :
      IsValid store → WhenOk (λ out. IsValid out.0) (execute_create_batch deps env info store msg)
  unfolding execute_create_batch
  creates v =
      let After : Store × Response → Type 0 = λ out. IsValid out.0 in
      WhenOk-bind After (is_owner_or_operator store.ado info.sender) _ λ is_owner _.
        WhenOk-bind After (ensure is_owner unauthorized) _ λ _ _.
          WhenOk-bind After (or_err store.config not_found) _ λ config _.
            WhenOk-bind After (single_coin info.funds) _ λ funds _.
              WhenOk-bind After (ensure (funds.denom == config.denom) invalid_funds) _ λ _ _.
                WhenOk-bind After (ensure (not (funds.amount == 0)) invalid_funds) _ λ _ _.
                  WhenOk-bind After
                    (ensure (ltb 0 msg.release_unit && not (is_zero msg.release_amount))
                      invalid_zero_amount)
                    _
                    λ _ units.
                      WhenOk-bind After (lockup_end_at (seconds env.block.time) msg.lockup_duration)
                        _
                        λ lockup_end _.
                          let b = new_batch msg funds.amount lockup_end in
                          WhenOk-bind After (save_new_batch store b config) _ λ store' saved.
                            WhenOk-bind After
                              (delegate_if deps env info store' funds.amount
                                msg.validator_to_delegate_to)
                              _
                              λ _ _.
                                let unit =
                                  positive_unit msg.release_unit _
                                    (ensure-eq-ok _ invalid_zero_amount units) in
                                WhenOk-ok IsValid _
                                  (save_new_batch-IsValid store b config
                                    (new_batch-OnSchedule msg funds.amount lockup_end unit) v)
                                  saved

  -- Creating a batch keeps every batch on its schedule, the new one included.
  pub execute_create_batch-IsValid :
      {out : Store × Response}
      → IsValid store
      → execute_create_batch deps env info store msg ≡ ok out
      → IsValid out.0
  execute_create_batch-IsValid v h =
      WhenOk-ok (λ out. IsValid out.0) (execute_create_batch deps env info store msg) (creates v) h
