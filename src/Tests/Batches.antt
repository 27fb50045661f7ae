-- ===== src/Tests/Batches.antt =====
-- Claims on a batch of 1000 that releases 30 every ten seconds from second 100 on.
use flexible_pay_crowdfund_a.Base.{
  ℕ, ◌+◌, ◌*◌, ◌≤◌, ◌≡◌, refl, true, false, none, some, [], ◌∷◌, arith,
}
use flexible_pay_crowdfund_a.Chain.Result.{ok}
use flexible_pay_crowdfund_a.Ado.Withdrawal.{WithdrawalType, get_amount, is_zero}
use flexible_pay_crowdfund_a.Vesting.Invariant.Sweep.{all_claimed, execute_claim_all-Swept}
use flexible_pay_crowdfund_a.Chain.Outflow.{outflows}
use flexible_pay_crowdfund_a.Vesting.State.{
  Config, Batch, Duration, Store, claim_time_of, save_new_batch, insert_by_lockup,
  claimable_entries, get_claimable_batches_with_ids,
}
use flexible_pay_crowdfund_a.Vesting.Claim.{claim_batch, record_claim}
use flexible_pay_crowdfund_a.Vesting.Schedule.{
  IsPaid, Claimed, claim_batch-Claimed, claim_batch-IsPaid,
}
use flexible_pay_crowdfund_a.Chain.Dict.{save}
use flexible_pay_crowdfund_a.Chain.Message.{Response}
use flexible_pay_crowdfund_a.Chain.Coin.{single_coin}
use flexible_pay_crowdfund_a.Chain.Deps.{MessageInfo}
use flexible_pay_crowdfund_a.Ado.Base.{is_contract_owner, is_owner_or_operator}
use flexible_pay_crowdfund_a.Ado.Recipient.{generate_direct_msg}
use flexible_pay_crowdfund_a.Vesting.Handlers.{
  CreateBatch, execute_create_batch, execute_claim, claim_loop, withdraw_total, execute_claim_all,
}
use flexible_pay_crowdfund_a.Vesting.Invariant
use flexible_pay_crowdfund_a.Vesting.Invariant.Handlers.{Paid, execute_claim-Paid}
use flexible_pay_crowdfund_a.Vesting.Invariant.Creation.{execute_create_batch-IsValid}
use flexible_pay_crowdfund_a.Tests.{value_or, coin, ado, deps, at_second, to_charity}

abbrev config : Config
config = record {
  is_multi_batch_enabled = false;
  recipient = to_charity;
  denom = 1;
  unbonding_duration = Duration.time 100;
}

abbrev batch_at : ℕ → ℕ → Batch
batch_at claimed last = record {
  amount = 1000;
  amount_claimed = claimed;
  lockup_end = 100;
  release_unit = 10;
  release_amount = WithdrawalType.amount 30;
  last_claimed_release_time = last;
}

release : get_amount (WithdrawalType.amount 30) 1000 ≡ ok 30
unfolding get_amount
release = refl

-- One period was claimed; at second 135 two more are over, and five are asked for.
two_periods :
    claim_batch deps (at_second 135) (batch_at 30 110) config (some 5) ≡ ok (60, batch_at 90 130)
unfolding claim_batch record_claim get_amount
two_periods = refl

claim_batch-Claimed_example : Claimed 135 1000 30 (batch_at 30 110) (60, batch_at 90 130)
claim_batch-Claimed_example =
    claim_batch-Claimed deps (at_second 135) (batch_at 30 110) config (some 5) release refl
      two_periods

one_period-IsPaid : IsPaid 30 1 (batch_at 30 110)
one_period-IsPaid = record {
  last = refl;
  released = omega arith;
  covered = omega arith;
  paced = omega arith;
}

claim_batch-IsPaid_example :
    (j : ℕ) × IsPaid 30 (1 + j) (batch_at 90 130) × (100 + (1 + j) * 10 ≤ 135)
claim_batch-IsPaid_example =
    claim_batch-IsPaid deps (at_second 135) (batch_at 30 110) config (some 5) release refl
      one_period-IsPaid two_periods

abbrev pub vesting : Store
vesting = record {
  ado = ado;
  config = some config;
  next_id = some 2;
  batches = (1, batch_at 30 110) ∷ [];
  claim_time = (1, record { all_claimed = false; lockup_end = 100 }) ∷ [];
}

vesting-IsValid : Invariant.IsValid vesting
unfolding get_amount
vesting-IsValid = record {
  sorted = tt;
  scheduled = (
    (1, record { last = refl; released = omega arith; covered = omega arith; paced = omega arith }),
    tt,
  );
}

abbrev pub owner : MessageInfo
owner = record { sender = 3; funds = [] }

abbrev after_claim : Store × Response
after_claim = value_or (vesting, []) (execute_claim deps (at_second 135) owner vesting (some 5) 1)

claim_succeeds : execute_claim deps (at_second 135) owner vesting (some 5) 1 ≡ ok after_claim
unfolding execute_claim is_contract_owner claim_batch record_claim get_amount generate_direct_msg
claim_succeeds = refl

execute_claim-Paid_example : Paid deps (at_second 135) owner vesting (some 5) 1 after_claim
execute_claim-Paid_example =
    execute_claim-Paid deps (at_second 135) owner vesting (some 5) 1 claim_succeeds

abbrev after_all : Store × Response
after_all = value_or (vesting, []) (execute_claim_all deps (at_second 135) owner vesting none none)

all_succeeds : execute_claim_all deps (at_second 135) owner vesting none none ≡ ok after_all
unfolding execute_claim_all is_contract_owner claim_loop claim_batch record_claim get_amount save
    withdraw_total generate_direct_msg get_claimable_batches_with_ids claimable_entries
    insert_by_lockup
all_succeeds = refl

execute_claim_all-Swept_example :
    (is_contract_owner vesting.ado owner.sender ≡ ok true)
    × (all_claimed after_all.0.batches
        ≡ all_claimed vesting.batches + outflows config.denom after_all.1)
    × Invariant.IsValid after_all.0
execute_claim_all-Swept_example =
    execute_claim_all-Swept deps (at_second 135) owner vesting config none none refl vesting-IsValid
      tt all_succeeds

abbrev funder : MessageInfo
funder = record { sender = 3; funds = coin 1 500 ∷ [] }

abbrev order : CreateBatch
order = record {
  lockup_duration = some 50;
  release_unit = 10;
  release_amount = WithdrawalType.amount 25;
  validator_to_delegate_to = none;
}

abbrev empty : Store
empty = record vesting { next_id = none; batches = []; claim_time = [] }

abbrev after_create : Store × Response
after_create = value_or (empty, []) (execute_create_batch deps (at_second 135) funder empty order)

create_succeeds : execute_create_batch deps (at_second 135) funder empty order ≡ ok after_create
unfolding execute_create_batch is_owner_or_operator is_contract_owner single_coin is_zero
    save_new_batch claim_time_of
create_succeeds = refl

execute_create_batch-IsValid_example : Invariant.IsValid after_create.0
execute_create_batch-IsValid_example =
    execute_create_batch-IsValid deps (at_second 135) funder empty order
      (record { sorted = tt; scheduled = tt }) create_succeeds
