-- ===== src/Crowdfund/Refund.antt =====
-- Refunds and burning after a sale that missed its minimum: `process_refund`, `execute_claim_refund`,
-- `get_burn_messages`, `clear_state`, `query_tokens` and `issue_refunds_and_burn_tokens` of
-- contracts/non-fungible-tokens/flexi-crowdfund/src/contract.rs.
pub mod Amount
pub mod RoundTrip
use flexible_pay_crowdfund_a.Base.{
  ℕ, ◌&&◌, Option, none, some, List, [], ◌∷◌, ◌++◌, map, take, unwrap_or, is_empty, min, ltb,
  if◌then◌else◌,
}
use flexible_pay_crowdfund_a.Chain.Result.{
  Result, ok, panicked, ◌>>=◌, ◌>>◌, ensure, or_err, not_found, no_ongoing_sale, sale_not_ended,
  min_sales_exceeded, no_purchases, limit_must_not_be_zero,
}
use flexible_pay_crowdfund_a.Chain.Uint.{u128_max, add_or_panic}
use flexible_pay_crowdfund_a.Chain.Coin.{Coin}
use flexible_pay_crowdfund_a.Chain.Dict.{Dict, may_load, remove}
use flexible_pay_crowdfund_a.Chain.Message.{
  CosmosMsg, bank_send, wasm_execute, burn, Response, add_messages,
}
use flexible_pay_crowdfund_a.Chain.Deps.{Deps, Env, MessageInfo}
use flexible_pay_crowdfund_a.Crowdfund.State.{Store, Purchase}

-- `MAX_LIMIT` and `DEFAULT_LIMIT` of contract.rs
abbrev pub max_limit : ℕ
max_limit = 100

abbrev pub default_limit : ℕ
default_limit = 50

-- `limit.unwrap_or(DEFAULT_LIMIT).min(MAX_LIMIT)`
abbrev pub operations : Option ℕ → ℕ
operations limit = min (unwrap_or limit default_limit) max_limit

-- The additions of `reduce`, after the first purchase.
unfoldable pub sum_refund : ℕ → ℕ → List Purchase → Result ℕ
sum_refund price acc [] = ok acc
sum_refund price acc (p ∷ ps) = do
  paid ← add_or_panic u128_max p.tax_amount price
  total ← add_or_panic u128_max acc paid
  sum_refund price total ps

-- The message, if the amount is not zero, and the storage without the purchaser's entry.
abbrev pub refund_msg : ℕ → Coin → ℕ → Option CosmosMsg
refund_msg purchaser price amount =
    if ltb 0 amount
    then some (bank_send purchaser (record { denom = price.denom; amount = amount } ∷ []))
    else none

-- `purchases[0]` panics where there are none.
unfoldable pub process_refund : Store → List Purchase → Coin → Result (Option CosmosMsg × Store)
unfolding sum_refund
process_refund store [] price = panicked
process_refund store (p ∷ ps) price = do
  first ← add_or_panic u128_max p.tax_amount price.amount
  amount ← sum_refund price.amount first ps
  ok (
    refund_msg p.purchaser price amount,
    record store { purchases = remove p.purchaser store.purchases },
  )

abbrev pub to_list {ℓ} : {A : Type ℓ} → Option A → List A
to_list none = []
to_list (some a) = a ∷ []

unfoldable pub execute_claim_refund : Deps → Env → MessageInfo → Store → Result (Store × Response)
execute_claim_refund deps env info store = do
  deps.nonpayable info.funds
  state ← or_err store.state no_ongoing_sale
  ensure (deps.is_expired state.end_time env.block) sale_not_ended
  ensure (ltb state.amount_sold state.min_tokens_sold) min_sales_exceeded
  purchases ← or_err (may_load info.sender store.purchases) no_purchases
  (msg, store') ← process_refund store purchases state.price
  ok (store', add_messages [] (to_list msg))

abbrev pub remove_all {ℓ} : {V : Type ℓ} → List ℕ → Dict V → Dict V
remove_all [] d = d
remove_all (k ∷ ks) d = remove_all ks (remove k d)

abbrev pub burn_msg : ℕ → ℕ → CosmosMsg
burn_msg token_address token_id = wasm_execute token_address (burn token_id) []

-- Up to `limit` tokens that the contract owns, each with a message that burns it.
unfoldable pub get_burn_messages : Deps → Store → ℕ → ℕ → Result (List CosmosMsg × Store)
get_burn_messages deps store address limit = do
  config ← or_err store.config not_found
  token_address ← deps.get_raw_address config.token_address
  tokens_to_burn ← deps.tokens token_address address limit
  ok (
    map (burn_msg token_address) tokens_to_burn,
    record store { available_tokens = remove_all tokens_to_burn store.available_tokens },
  )

unfoldable pub clear_state : Store → Store
clear_state store = record store { state = none; number_of_tokens_available = some 0 }

-- The loop over the purchases of `limit` users.
unfoldable pub refund_loop :
    Coin → List (List Purchase) → Store → List CosmosMsg → Result (List CosmosMsg × Store)
refund_loop price [] store msgs = ok (msgs, store)
refund_loop price (ps ∷ rest) store msgs = do
  (msg, store') ← process_refund store ps price
  refund_loop price rest store' (msgs ++ to_list msg)

unfoldable pub issue_refunds_and_burn_tokens :
    Deps → Env → Store → Option ℕ → Result (Store × Response)
unfolding clear_state
issue_refunds_and_burn_tokens deps env store limit = do
  state ← or_err store.state not_found
  ensure (ltb 0 (operations limit)) limit_must_not_be_zero
  let purchases = take (operations limit) (map (λ e. e.1) store.purchases)
  (refund_msgs, refunded) ← refund_loop state.price purchases store []
  (burn_msgs, burned) ← get_burn_messages deps refunded env.contract_address (operations limit)
  let final = if is_empty burn_msgs && is_empty purchases then clear_state burned else burned
  ok (final, add_messages (add_messages [] refund_msgs) burn_msgs)
