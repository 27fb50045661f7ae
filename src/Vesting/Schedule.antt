-- ===== src/Vesting/Schedule.antt =====
-- A batch is paid out by its schedule: so much for each release period since the lockup's end.
use flexible_pay_crowdfund_a.Base.{
  ℕ, ◌+◌, ◌*◌, ◌/◌, ◌≤◌, ◌<◌, ◌≡◌, refl, subst, Option, min, unwrap_or, arith, leb, leb→le, ◌==◌,
  Bool-cases, inl, inr,
}
use flexible_pay_crowdfund_a.Chain.Result.{
  ok, WhenOk, WhenOk-ok, WhenOk-bind, ensure, ensure-eq-ok, funds_are_locked,
}
use flexible_pay_crowdfund_a.Chain.Uint.{u128_max, checked_mul, checked_mul-eq-ok, sub_or_panic}
use flexible_pay_crowdfund_a.Chain.Deps.{Deps, Env}
use flexible_pay_crowdfund_a.Chain.Time.{seconds}
use flexible_pay_crowdfund_a.Ado.Withdrawal.{get_amount}
use flexible_pay_crowdfund_a.Vesting.State.{Config, Batch}
use flexible_pay_crowdfund_a.Vesting.Claim.{claim_batch, record_claim, div_or_panic}

-- After `k` periods, of which each releases `per`: the last claim was at the end of the `k`-th, and
-- no more was paid than they release, nor than the batch holds.
pub record IsPaid (per k : ℕ) (b : Batch) : Type 0 where
  pub last : b.last_claimed_release_time ≡ b.lockup_end + k * b.release_unit
  pub released : b.amount_claimed ≤ k * per
  pub covered : b.amount_claimed ≤ b.amount
  pub paced : 0 < b.release_unit

-- What a claim has done: `sent` more is claimed, `j` more periods are paid, and those are over.
pub record Claimed (now balance per : ℕ) (b : Batch) (r : ℕ × Batch) : Type 0 where
  pub periods : ℕ
  pub claimed : r.1.amount_claimed ≡ b.amount_claimed + r.0
  pub moved : r.1.last_claimed_release_time ≡ b.last_claimed_release_time + periods * b.release_unit
  pub over : r.1.last_claimed_release_time ≤ now
  pub unlocked : b.lockup_end ≤ now
  pub by_schedule : r.0 ≤ per * periods
  pub at_hand : r.0 ≤ balance
  pub held : r.0 + b.amount_claimed ≤ b.amount
  pub same_amount : r.1.amount ≡ b.amount
  pub same_lockup : r.1.lockup_end ≡ b.lockup_end
  pub same_unit : r.1.release_unit ≡ b.release_unit
  pub same_release : r.1.release_amount ≡ b.release_amount

claims_fit : (elapsed unit n : ℕ) → 0 < unit → n ≤ elapsed / unit → n * unit ≤ elapsed
claims_fit elapsed unit n h k = grind arith

sub_or_panic-eq-ok : (a b : ℕ) {r : ℕ} → sub_or_panic a b ≡ ok r → r + b ≡ a
sub_or_panic-eq-ok a b h = ground arith

div_or_panic-eq-ok : (a b : ℕ) {r : ℕ} → div_or_panic a b ≡ ok r → (r ≡ a / b) × (0 < b)
div_or_panic-eq-ok a b h = ground arith

record_claim-writes :
    (b : Batch) (sent n : ℕ)
    → WhenOk
        (λ c.
          (c.amount_claimed ≡ b.amount_claimed + sent)
          × (c.last_claimed_release_time ≡ b.last_claimed_release_time + n * b.release_unit)
          × (c.amount ≡ b.amount)
          × (c.lockup_end ≡ b.lockup_end)
          × (c.release_unit ≡ b.release_unit)
          × (c.release_amount ≡ b.release_amount))
        (record_claim b sent n)
unfolding record_claim
record_claim-writes b sent n = ground arith

-- A claim by the schedule: at a known payment for each period, a known balance.
abbrev pub Answers : Deps → Env → Config → Batch → ℕ × Batch → Type 0
Answers deps env config b r =
    (per : ℕ) × (balance : ℕ) × (get_amount b.release_amount b.amount ≡ ok per)
    × (deps.balance env.contract_address config.denom ≡ ok balance)
    × Claimed (seconds env.block.time) balance per b r

module _ (deps : Deps) (env : Env) (b : Batch) (config : Config) (number_of_claims : Option ℕ) where
  pub claim-Answers :
      WhenOk (Answers deps env config b) (claim_batch deps env b config number_of_claims)
  unfolding claim_batch
  claim-Answers =
      let now = seconds env.block.time in
      let After = Answers deps env config b in
      WhenOk-bind After (ensure (leb b.lockup_end now) funds_are_locked) _ λ _ unlocked.
        WhenOk-bind After (get_amount b.release_amount b.amount) _ λ per each.
          WhenOk-bind After (deps.balance env.contract_address config.denom) _ λ balance held.
            WhenOk-bind After (sub_or_panic now b.last_claimed_release_time) _ λ elapsed since.
              WhenOk-bind After (div_or_panic elapsed b.release_unit) _ λ available periods.
                let n = min (unwrap_or number_of_claims available) available in
                WhenOk-bind After (checked_mul u128_max per n) _ λ wanted product.
                  WhenOk-bind After (sub_or_panic b.amount b.amount_claimed) _ λ unclaimed rest.
                    let sent = min wanted (min unclaimed balance) in
                    let ended =
                      leb→le b.lockup_end now (ensure-eq-ok _ funds_are_locked unlocked) in
                    let (times, unit) = div_or_panic-eq-ok elapsed b.release_unit periods in
                    let before = sub_or_panic-eq-ok now b.last_claimed_release_time since in
                    let left = sub_or_panic-eq-ok b.amount b.amount_claimed rest in
                    let fits = claims_fit elapsed b.release_unit n unit (omega arith) in
                    let product_is = (checked_mul-eq-ok u128_max per n product).0 in
                    elim (Bool-cases (sent == 0)) [
                      | inl nothing ↦ rw nothing (
                        per,
                        balance,
                        each,
                        held,
                        record {
                          periods = 0;
                          claimed = ground arith;
                          moved = omega arith;
                          over = omega arith;
                          unlocked = ended;
                          by_schedule = ground arith;
                          at_hand = omega arith;
                          held = omega arith;
                          same_amount = refl;
                          same_lockup = refl;
                          same_unit = refl;
                          same_release = refl;
                        },
                      )
                      | inr something ↦ rw something (
                          WhenOk-bind After (record_claim b sent n) _ λ c written.
                            let w = WhenOk-ok _ _ (record_claim-writes b sent n) written in
                            (
                              per,
                              balance,
                              each,
                              held,
                              record {
                                periods = n;
                                claimed = w.0;
                                moved = w.1;
                                over = omega (arith, w.1);
                                unlocked = ended;
                                by_schedule = omega arith;
                                at_hand = omega arith;
                                held = omega arith;
                                same_amount = w.2;
                                same_lockup = w.3;
                                same_unit = w.4;
                                same_release = w.5;
                              },
                            ))
                    ]

  -- A claim, however many periods it asks for, pays no more than the contract's balance, than what
  -- the batch still holds, or than what the periods that it marks as paid release; it never marks a
  -- period that is not over, and never pays before the lockup ends.
  pub claim_batch-Claimed :
      {per balance : ℕ} {r : ℕ × Batch}
      → get_amount b.release_amount b.amount ≡ ok per
      → deps.balance env.contract_address config.denom ≡ ok balance
      → claim_batch deps env b config number_of_claims ≡ ok r
      → Claimed (seconds env.block.time) balance per b r
  claim_batch-Claimed {per} {balance} {r} each held h =
      let (per', balance', each', held', c) =
        WhenOk-ok (Answers deps env config b) (claim_batch deps env b config number_of_claims)
          claim-Answers h in
      let same_per : per' ≡ per = ground (arith, each, each') in
      let same_balance : balance' ≡ balance = ground (arith, held, held') in
      subst (λ p. Claimed (seconds env.block.time) balance p b r) same_per
        (subst (λ q. Claimed (seconds env.block.time) q per' b r) same_balance c)

  -- So the schedule is kept: a batch that was paid by it after `k` periods is paid by it after the
  -- claim, at some later period that is over.
  pub claim_batch-IsPaid :
      {per balance k : ℕ} {r : ℕ × Batch}
      → get_amount b.release_amount b.amount ≡ ok per
      → deps.balance env.contract_address config.denom ≡ ok balance
      → IsPaid per k b
      → claim_batch deps env b config number_of_claims ≡ ok r
      → (j : ℕ) × IsPaid per (k + j) r.1
        × (r.1.lockup_end + (k + j) * r.1.release_unit ≤ seconds env.block.time)
  claim_batch-IsPaid {per} {balance} {k} {r} each held paid h =
      let c = claim_batch-Claimed each held h in
      let lasts : r.1.last_claimed_release_time
          ≡ r.1.lockup_end + (k + c.periods) * r.1.release_unit =
        rw (c.same_unit, c.same_lockup) (omega (arith, c.moved, paid.last)) in
      (
        c.periods,
        record {
          last = lasts;
          released = omega (arith, c.claimed, c.by_schedule, paid.released);
          covered = omega (arith, c.claimed, c.held, c.same_amount);
          paced = omega (arith, c.same_unit, paid.paced);
        },
        omega (arith, c.over, lasts),
      )
