-- ===== src/Vesting/Query.antt =====
-- The queries of contracts/finance/andromeda-vesting/src/contract.rs: `query_config`, `query_batch`,
-- `query_batches` and `get_batch_response`, and `get_all_batches_with_ids` of state.rs.
pub mod Agreement
use flexible_pay_crowdfund_a.Base.{
  ℕ, Option, none, some, List, [], ◌∷◌, take, min, unwrap_or, leb, ltb, if◌then◌else◌,
}
use flexible_pay_crowdfund_a.Chain.Result.{Result, ok, ◌>>=◌, or_err, not_found}
use flexible_pay_crowdfund_a.Chain.Dict.{Dict, may_load}
use flexible_pay_crowdfund_a.Chain.Deps.{Deps, Env}
use flexible_pay_crowdfund_a.Chain.Time.{seconds}
use flexible_pay_crowdfund_a.Ado.Withdrawal.{WithdrawalType, get_amount}
use flexible_pay_crowdfund_a.Vesting.State.{Config, Batch, Store, default_limit, max_limit}
use flexible_pay_crowdfund_a.Vesting.Claim.{claim_batch, div_or_panic}

pub record BatchResponse : Type 0 where
  pub id : ℕ
  pub amount : ℕ
  pub amount_claimed : ℕ
  pub amount_available_to_claim : ℕ
  pub number_of_available_claims : ℕ
  pub lockup_end : ℕ
  pub release_unit : ℕ
  pub release_amount : WithdrawalType
  pub last_claimed_release_time : ℕ

unfoldable pub query_config : Store → Result Config
query_config store = or_err store.config not_found

-- What could be claimed, and the copy of the batch that the claim alters, which is not stored.
unfoldable pub available_to_claim : Deps → Env → Config → Batch → Result (ℕ × Batch)
available_to_claim deps env config batch =
    if leb batch.lockup_end (seconds env.block.time)
    then claim_batch deps env batch config none
    else ok (0, batch)

unfoldable pub get_batch_response : Deps → Env → Config → Batch → ℕ → Result BatchResponse
unfolding available_to_claim
get_batch_response deps env config batch batch_id = do
  (amount_available_to_claim, batch') ← available_to_claim deps env config batch
  amount_per_release ← get_amount batch'.release_amount batch'.amount
  number_of_available_claims ← div_or_panic amount_available_to_claim amount_per_release
  ok (record {
    id = batch_id;
    amount = batch'.amount;
    amount_claimed = batch.amount_claimed;
    amount_available_to_claim = amount_available_to_claim;
    number_of_available_claims = number_of_available_claims;
    lockup_end = batch'.lockup_end;
    release_unit = batch'.release_unit;
    release_amount = batch'.release_amount;
    last_claimed_release_time = batch.last_claimed_release_time;
  })

unfoldable pub query_batch : Deps → Env → Store → ℕ → Result BatchResponse
query_batch deps env store batch_id = do
  batch ← or_err (may_load batch_id store.batches) not_found
  config ← or_err store.config not_found
  get_batch_response deps env config batch batch_id

-- The entries after a start, which is left out itself.
abbrev pub batches_after : Option ℕ → Dict Batch → List (ℕ × Batch)
batches_after start [] = []
batches_after none (e ∷ d) = e ∷ batches_after none d
batches_after (some s) ((k, b) ∷ d) =
    let rest = batches_after (some s) d in if ltb s k then (k, b) ∷ rest else rest

unfoldable pub get_all_batches_with_ids : Store → Option ℕ → Option ℕ → List (ℕ × Batch)
get_all_batches_with_ids store start_after limit =
    take (min (unwrap_or limit default_limit) max_limit) (batches_after start_after store.batches)

unfoldable pub batch_responses :
    Deps → Env → Config → List (ℕ × Batch) → Result (List BatchResponse)
batch_responses deps env config [] = ok []
batch_responses deps env config ((id, batch) ∷ rest) = do
  response ← get_batch_response deps env config batch id
  responses ← batch_responses deps env config rest
  ok (response ∷ responses)

unfoldable pub query_batches :
    Deps → Env → Store → Option ℕ → Option ℕ → Result (List BatchResponse)
query_batches deps env store start_after limit = do
  config ← or_err store.config not_found
  batch_responses deps env config (get_all_batches_with_ids store start_after limit)
