-- ===== src/Vesting/Invariant/Sweep.antt =====
-- What `execute_claim_all` pays: the sum of what it adds to the claimed amounts of the batches.
use flexible_pay_crowdfund_a.Base.{
  ℕ, ◌+◌, ◌≡◌, refl, ap, ◌∙◌, true, Option, some, List, [], ◌∷◌, take, min, unwrap_or, arith, ◌==◌,
  Bool-cases, inl, inr,
}
use flexible_pay_crowdfund_a.Chain.Result.{
  ok, WhenOk, WhenOk-ok, WhenOk-mono, WhenOk-bind, ensure, ensure-eq-ok, unauthorized,
}
use flexible_pay_crowdfund_a.Chain.Uint.{u128_max, checked_add, checked_add-eq-ok, sub_or_panic}
use flexible_pay_crowdfund_a.Chain.Dict.{
  Dict, may_load, save, IsSorted, save-IsSorted, total, total-save, measure,
}
use flexible_pay_crowdfund_a.Chain.Coin.{Coin}
use flexible_pay_crowdfund_a.Chain.Message.{Response}
use flexible_pay_crowdfund_a.Chain.Outflow.{outflows, generate_direct_msg-outflow}
use flexible_pay_crowdfund_a.Chain.Deps.{Deps, Env, MessageInfo}
use flexible_pay_crowdfund_a.Chain.Time.{seconds}
use flexible_pay_crowdfund_a.Ado.Base.{is_contract_owner}
use flexible_pay_crowdfund_a.Ado.Recipient.{generate_direct_msg}
use flexible_pay_crowdfund_a.Vesting.State.{
  Config, Batch, Store, claimable_entries, load_batches, get_claimable_batches_with_ids,
  default_limit, max_limit,
}
use flexible_pay_crowdfund_a.Vesting.Claim.{claim_batch, div_or_panic}
use flexible_pay_crowdfund_a.Vesting.Handlers.{claim_loop, withdraw_total, execute_claim_all}
use flexible_pay_crowdfund_a.Vesting.Schedule.{Answers, claim-Answers}
use flexible_pay_crowdfund_a.Vesting.Invariant.{IsValid}
use flexible_pay_crowdfund_a.Vesting.Invariant.Handlers.{execute_claim_all-IsValid}
use flexible_pay_crowdfund_a.Vesting.Invariant.Listed.{
  Listed, claimable_entries-Once, take-Once, load_batches-Listed, save-Loaded,
}

-- What was claimed of all batches together.
abbrev pub all_claimed : Dict Batch → ℕ
all_claimed d = total (λ b. b.amount_claimed) d

module _ (deps : Deps) (env : Env) (config : Config) where
  -- Writing a batch with more claimed adds as much to the sum.
  written :
      (id : ℕ) (b : Batch) (d : Dict Batch) {r : ℕ × Batch}
      → IsSorted d
      → may_load id d ≡ some b
      → Answers deps env config b r
      → all_claimed (save id r.1 d) ≡ all_claimed d + r.0
  written id b d {r} sorted stored (_, _, _, _, c) =
      let sums = total-save (λ b. b.amount_claimed) id r.1 d sorted in
      let old = ap (measure (λ b. b.amount_claimed)) stored in
      let grown = c.claimed in omega (arith, sums, old, grown)

  sweeps :
      (until : ℕ) (bs : List (ℕ × Batch)) (d : Dict Batch) (paid : ℕ)
      → IsSorted d
      → Listed d bs
      → WhenOk
          (λ r. all_claimed r.0 + paid ≡ all_claimed d + r.1)
          (claim_loop deps env config until bs (d, paid))
  unfolding claim_loop
  sweeps until [] d paid sorted l = refl
  sweeps until ((id, b) ∷ bs) d paid sorted l =
      let After : Dict Batch × ℕ → Type 0 = λ r. all_claimed r.0 + paid ≡ all_claimed d + r.1 in
      WhenOk-bind After (sub_or_panic until b.last_claimed_release_time) _ λ elapsed _.
        WhenOk-bind After (div_or_panic elapsed b.release_unit) _ λ periods _.
          WhenOk-bind After (claim_batch deps env b config (some periods)) _ λ r claimed.
            WhenOk-bind After (checked_add u128_max paid r.0) _ λ more added.
              let answer =
                WhenOk-ok (Answers deps env config b) _
                  (claim-Answers deps env b config (some periods)) claimed in
              let one = written id b d sorted l.0.0 answer in
              let sum = (checked_add-eq-ok u128_max paid r.0 added).0 in
              let d' : Dict Batch = save id r.1 d in
              WhenOk-mono (λ q. all_claimed q.0 + more ≡ all_claimed d' + q.1) After
                (λ q rest. omega (arith, one, sum, rest))
                (claim_loop deps env config until bs (d', more))
                (sweeps until bs d' more (save-IsSorted id r.1 d sorted)
                  (save-Loaded id r.1 bs d l.1.0 l.0.1, l.1.1))

  -- Nothing or one message, with the whole amount.
  withdraws :
      (n : ℕ) → WhenOk (λ msgs. outflows config.denom msgs ≡ n) (withdraw_total deps config n)
  unfolding withdraw_total
  withdraws n =
      let After : Response → Type 0 = λ msgs. outflows config.denom msgs ≡ n in
      let coins : List Coin = record { denom = config.denom; amount = n } ∷ [] in
      elim (Bool-cases (n == 0)) [
        | inl nothing ↦ rw nothing (ground arith)
        | inr some_amount ↦ rw some_amount (
            WhenOk-bind After (generate_direct_msg deps config.recipient coins) _ λ m made.
              let out = generate_direct_msg-outflow deps config.denom config.recipient coins made in
              ground (arith, out))
      ]

module _ (deps : Deps) (env : Env) (info : MessageInfo) (store : Store) (config : Config) where
  abbrev Swept : Store × Response → Type 0
  Swept out =
      (is_contract_owner store.ado info.sender ≡ ok true)
      × (all_claimed out.0.batches ≡ all_claimed store.batches + outflows config.denom out.1)

  sweeps_all :
      (limit up_to_time : Option ℕ)
      → store.config ≡ some config
      → IsSorted store.batches
      → IsSorted store.claim_time
      → WhenOk Swept (execute_claim_all deps env info store limit up_to_time)
  unfolding execute_claim_all get_claimable_batches_with_ids
  sweeps_all limit up_to_time configured sorted index =
      let now = seconds env.block.time in
      let until = min now (unwrap_or up_to_time now) in
      let n = min (unwrap_or limit default_limit) max_limit in
      let entries = take n (claimable_entries now store.claim_time) in
      let once = take-Once n _ (claimable_entries-Once now store.claim_time index) in
      WhenOk-bind Swept (deps.nonpayable info.funds) _ λ _ _.
        WhenOk-bind Swept (is_contract_owner store.ado info.sender) _ λ is_owner owner.
          WhenOk-bind Swept (ensure is_owner unauthorized) _ λ _ is_true. rw configured (
            WhenOk-bind Swept (load_batches store.batches entries) _ λ bs loaded.
              WhenOk-bind Swept (claim_loop deps env config until bs (store.batches, 0)) _
                λ r looped. WhenOk-bind Swept (withdraw_total deps config r.1) _ λ msgs sent.
                  let listed =
                    WhenOk-ok (Listed store.batches) _
                      (load_batches-Listed store.batches entries once) loaded in
                  let grown =
                    WhenOk-ok (λ r. all_claimed r.0 + 0 ≡ all_claimed store.batches + r.1) _
                      (sweeps deps env config until bs store.batches 0 sorted listed) looped in
                  let all =
                    WhenOk-ok (λ msgs. outflows config.denom msgs ≡ r.1) _
                      (withdraws deps env config r.1) sent in
                  (owner ∙ ap ok (ensure-eq-ok _ unauthorized is_true), omega (arith, grown, all)))

  -- Where the index is in order, claiming from the batches that it lists, up to whatever time and limit, is for the owner
  -- alone; it sends, in the denomination of the configuration, exactly what it adds to the claimed
  -- amounts of all batches together, and it keeps every batch on its schedule.
  pub execute_claim_all-Swept :
      (limit up_to_time : Option ℕ) {out : Store × Response}
      → store.config ≡ some config
      → IsValid store
      → IsSorted store.claim_time
      → execute_claim_all deps env info store limit up_to_time ≡ ok out
      → (is_contract_owner store.ado info.sender ≡ ok true)
        × (all_claimed out.0.batches ≡ all_claimed store.batches + outflows config.denom out.1)
        × IsValid out.0
  execute_claim_all-Swept limit up_to_time configured v index h =
      let s =
        WhenOk-ok Swept (execute_claim_all deps env info store limit up_to_time)
          (sweeps_all limit up_to_time configured v.sorted index) h in
      (s.0, s.1, execute_claim_all-IsValid deps env info store limit up_to_time v h)
