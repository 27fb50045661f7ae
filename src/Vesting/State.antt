-- ===== src/Vesting/State.antt =====
-- The storage of the vesting contract: contracts/finance/andromeda-vesting/src/state.rs, with
-- `Config` of packages/andromeda-finance/src/vesting.rs.
use flexible_pay_crowdfund_a.Base.{
  ℕ, ◌+◌, Bool, not, ◌&&◌, ◌||◌, Option, some, List, [], ◌∷◌, take, unwrap_or, min, ltb, leb, ◌==◌,
  if◌then◌else◌,
}
use flexible_pay_crowdfund_a.Chain.Result.{
  Result, ok, ◌>>=◌, ◌>>◌, ensure, or_err, not_found, multi_batch_not_supported,
}
use flexible_pay_crowdfund_a.Chain.Uint.{u64_max, add_or_panic, sub_or_panic}
use flexible_pay_crowdfund_a.Chain.Dict.{Dict, may_load, save}
use flexible_pay_crowdfund_a.Ado.Base.{Ado}
use flexible_pay_crowdfund_a.Ado.Recipient.{Recipient}
use flexible_pay_crowdfund_a.Ado.Withdrawal.{WithdrawalType}

-- `cw_utils::Duration`
pub data Duration : Type 0 where
  height time : ℕ → Duration

pub record Config : Type 0 where
  pub is_multi_batch_enabled : Bool
  pub recipient : Recipient
  pub denom : ℕ
  pub unbonding_duration : Duration

pub record Batch : Type 0 where
  pub amount : ℕ
  pub amount_claimed : ℕ
  pub lockup_end : ℕ
  pub release_unit : ℕ
  pub release_amount : WithdrawalType
  pub last_claimed_release_time : ℕ

-- The index `claim_time`: whether all was claimed, and the end of the lockup.
pub record ClaimTime : Type 0 where
  pub all_claimed : Bool
  pub lockup_end : ℕ

pub record Store : Type 0 where
  pub ado : Ado
  pub config : Option Config
  pub next_id : Option ℕ
  pub batches : Dict Batch
  -- the index `claim_time`: an entry for each batch, as it was when the index was last written
  pub claim_time : Dict ClaimTime

-- The index function; it subtracts, and panics below zero.
unfoldable pub claim_time_of : Batch → Result ClaimTime
claim_time_of batch = do
  left ← sub_or_panic batch.amount batch.amount_claimed
  ok (record { all_claimed = left == 0; lockup_end = batch.lockup_end })

-- A write through the indexed map, which writes the batch and its entry of the index.
unfoldable pub save_new_batch : Store → Batch → Config → Result Store
unfolding claim_time_of
save_new_batch store batch config = do
  let next_id = unwrap_or store.next_id 1
  ensure (next_id == 1 || config.is_multi_batch_enabled) multi_batch_not_supported
  entry ← claim_time_of batch
  next ← add_or_panic u64_max next_id 1
  ok (record store {
    batches = save next_id batch store.batches;
    claim_time = save next_id entry store.claim_time;
    next_id = some next;
  })

abbrev pub default_limit : ℕ
default_limit = 10

abbrev pub max_limit : ℕ
max_limit = 30

-- By the end of the lockup, then by the id.
unfoldable pub insert_by_lockup : ℕ × ClaimTime → List (ℕ × ClaimTime) → List (ℕ × ClaimTime)
insert_by_lockup (id, b) [] = (id, b) ∷ []
insert_by_lockup (id, b) ((j, c) ∷ rest) =
    if leb b.lockup_end c.lockup_end
    then (id, b) ∷ (j, c) ∷ rest
    else (j, c) ∷ insert_by_lockup (id, b) rest

abbrev pub is_claimable : ℕ → ClaimTime → Bool
is_claimable current_time c = not c.all_claimed && ltb c.lockup_end (current_time + 1)

-- The index's entries of what is not all claimed and no longer locked, in its order.
unfoldable pub claimable_entries : ℕ → Dict ClaimTime → List (ℕ × ClaimTime)
unfolding insert_by_lockup
claimable_entries current_time [] = []
claimable_entries current_time ((id, c) ∷ d) =
    let rest = claimable_entries current_time d in
    if is_claimable current_time c then insert_by_lockup (id, c) rest else rest

-- An index holds no batches: they are loaded from the map itself.
abbrev pub load_batches : Dict Batch → List (ℕ × ClaimTime) → Result (List (ℕ × Batch))
load_batches batches [] = ok []
load_batches batches ((id, c) ∷ rest) = do
  batch ← or_err (may_load id batches) not_found
  loaded ← load_batches batches rest
  ok ((id, batch) ∷ loaded)

unfoldable pub get_claimable_batches_with_ids : Store → ℕ → Option ℕ → Result (List (ℕ × Batch))
unfolding claimable_entries
get_claimable_batches_with_ids store current_time limit = load_batches store.batches (
    take (min (unwrap_or limit default_limit) max_limit)
      (claimable_entries current_time store.claim_time))
