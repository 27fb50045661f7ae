-- ===== src/Crowdfund/Sale.antt =====
-- Starting a sale and buying: `execute_start_sale`, `execute_purchase_by_token_id`,
-- `execute_purchase` and `purchase_tokens` of
-- contracts/non-fungible-tokens/flexi-crowdfund/src/contract.rs.
pub mod Loop
pub mod Payment
pub mod Call
use flexible_pay_crowdfund_a.Base.{
  ℕ, ◌%◌, ◌^◌, Bool, true, not, Option, none, some, List, [], ◌∷◌, ◌++◌, length, unwrap_or,
  is_empty, min, ltb, if◌then◌else◌,
}
use flexible_pay_crowdfund_a.Chain.Result.{
  Result, ok, ◌>>=◌, ◌>>◌, ensure, or_err, not_found, unauthorized, sale_started,
  start_time_after_end_time, no_ongoing_sale, token_not_available, purchase_limit_reached,
  all_tokens_purchased, insufficient_funds,
}
use flexible_pay_crowdfund_a.Chain.Uint.{
  u128_max, checked_add, checked_sub, checked_mul, sub_or_panic, mul_or_panic,
}
use flexible_pay_crowdfund_a.Chain.Coin.{Coin, Funds, native, try_get_coin, deduct_funds}
use flexible_pay_crowdfund_a.Chain.Dict.{Dict, may_load, has, save, remove}
use flexible_pay_crowdfund_a.Chain.Message.{SubMsg, new_sub_msg, bank_send, Response}
use flexible_pay_crowdfund_a.Chain.Deps.{Deps, Env, MessageInfo}
use flexible_pay_crowdfund_a.Chain.Time.{get_and_validate_start_time, expiration_from_milliseconds}
use flexible_pay_crowdfund_a.Ado.Base.{is_contract_owner}
use flexible_pay_crowdfund_a.Ado.Modules.{on_funds_transfer}
use flexible_pay_crowdfund_a.Ado.Recipient.{Recipient}
use flexible_pay_crowdfund_a.Ado.Recipient
use flexible_pay_crowdfund_a.Ado.Rates.{get_tax_amount}
use flexible_pay_crowdfund_a.Crowdfund.State.{Store, State, Purchase, get_available_tokens}
use flexible_pay_crowdfund_a.Crowdfund.Mint.{is_none}

-- The arguments of `StartSale`.
pub record StartSale : Type 0 where
  pub start_time : Option ℕ
  pub end_time : ℕ
  pub price : Coin
  pub min_tokens_sold : ℕ
  pub max_amount_per_wallet : Option ℕ
  pub recipient : Recipient

unfoldable pub execute_start_sale :
    Deps → Env → MessageInfo → Store → StartSale → Result (Store × Response)
unfolding is_contract_owner
execute_start_sale deps env info store msg = do
  Recipient.validate deps msg.recipient
  deps.nonpayable info.funds
  deps.validate_andr_addresses (msg.recipient.address ∷ [])
  is_owner ← is_contract_owner store.ado info.sender
  ensure is_owner unauthorized
  (start_expiration, current_time) ← get_and_validate_start_time deps env msg.start_time
  end_expiration ← expiration_from_milliseconds msg.end_time
  ensure (deps.later end_expiration start_expiration) start_time_after_end_time
  ensure (is_none store.state) sale_started
  let state : State = record {
    end_time = end_expiration;
    price = msg.price;
    min_tokens_sold = msg.min_tokens_sold;
    max_amount_per_wallet = unwrap_or msg.max_amount_per_wallet 1;
    amount_sold = 0;
    amount_to_send = 0;
    amount_transferred = 0;
    recipient = msg.recipient;
  }
  ok (record store { state = some state; sale_conducted = some true }, [])

-- The variables of the loop of `purchase_tokens`, those in storage included.
pub record Cart : Type 0 where
  pub total_tax_amount : ℕ
  pub sale : State
  pub purchases : List Purchase
  pub available_tokens : Dict Bool
  pub current_number : ℕ

abbrev pub new_purchase : ℕ → List SubMsg → ℕ → ℕ → Purchase
new_purchase purchaser msgs token_id tax_amount = record {
  token_id = token_id;
  tax_amount = tax_amount;
  msgs = msgs;
  purchaser = purchaser;
}

-- One round of the loop.
unfoldable pub purchase_token : ℕ → List SubMsg → Funds → ℕ → Cart → Result Cart
purchase_token purchaser msgs remainder token_id cart = do
  remaining_amount ← try_get_coin remainder
  tax_amount ← get_tax_amount msgs cart.sale.price.amount remaining_amount.amount
  total_tax_amount ← checked_add u128_max cart.total_tax_amount tax_amount
  amount_to_send ← checked_add u128_max cart.sale.amount_to_send remaining_amount.amount
  amount_sold ← checked_add u128_max cart.sale.amount_sold 1
  current_number ← checked_sub cart.current_number 1
  let sale = cart.sale
  ok (record {
    total_tax_amount = total_tax_amount;
    sale = record sale { amount_to_send = amount_to_send; amount_sold = amount_sold };
    purchases = cart.purchases ++ new_purchase purchaser msgs token_id tax_amount ∷ [];
    available_tokens = remove token_id cart.available_tokens;
    current_number = current_number;
  })

unfoldable pub purchase_loop : ℕ → List SubMsg → Funds → List ℕ → Cart → Result Cart
purchase_loop purchaser msgs remainder [] cart = ok cart
purchase_loop purchaser msgs remainder (t ∷ ts) cart = do
  cart' ← purchase_token purchaser msgs remainder t cart
  purchase_loop purchaser msgs remainder ts cart'

-- What `purchase_tokens` leaves: the required payment, the altered sale and purchases, and the
-- storage.
pub record Bought : Type 0 where
  pub required_payment : Coin
  pub sale : State
  pub purchases : List Purchase
  pub store : Store

unfoldable pub purchase_tokens :
    Deps → Store → List ℕ → MessageInfo → State → List Purchase → Result Bought
purchase_tokens deps store token_ids info state purchases = do
  ensure (not (is_empty token_ids)) all_tokens_purchased
  let number_of_tokens_purchased = length token_ids
  cost ← mul_or_panic u128_max state.price.amount number_of_tokens_purchased
  ensure (deps.has_coins info.funds (record { denom = state.price.denom; amount = cost }))
      insufficient_funds
  (msgs, remainder) ← on_funds_transfer deps store.ado info.sender (native state.price)
  current_number ← or_err store.number_of_tokens_available not_found
  let cart : Cart = record {
    total_tax_amount = 0;
    sale = state;
    purchases = purchases;
    available_tokens = store.available_tokens;
    current_number = current_number;
  }
  done ← purchase_loop info.sender msgs remainder token_ids cart
  base ← checked_mul u128_max state.price.amount number_of_tokens_purchased
  amount ← checked_add u128_max base done.total_tax_amount
  let required_payment : Coin = record { denom = state.price.denom; amount = amount }
  ensure (deps.has_coins info.funds required_payment) insufficient_funds
  ok (record {
    required_payment = required_payment;
    sale = done.sale;
    purchases = done.purchases;
    store = record store {
      available_tokens = done.available_tokens;
      number_of_tokens_available = some done.current_number;
    };
  })

-- The part that the two ways to buy share at their start: the ongoing sale and the sender's
-- purchases so far.
unfoldable pub ongoing_sale : Deps → Env → Store → Result State
ongoing_sale deps env store = do
  state ← or_err store.state no_ongoing_sale
  ensure (not (deps.is_expired state.end_time env.block)) no_ongoing_sale
  ok state

-- `state.max_amount_per_wallet - purchases.len() as u32`
unfoldable pub max_possible : State → List Purchase → Result ℕ
max_possible state purchases = sub_or_panic state.max_amount_per_wallet (length purchases % 2 ^ 32)

-- The writes of `STATE` and `PURCHASES` after `purchase_tokens`.
abbrev pub save_purchases : ℕ → Bought → Store
save_purchases sender b =
    let store = b.store in
    record store { state = some b.sale; purchases = save sender b.purchases store.purchases }

unfoldable pub execute_purchase_by_token_id :
    Deps → Env → MessageInfo → Store → ℕ → Result (Store × Response)
unfolding ongoing_sale max_possible
execute_purchase_by_token_id deps env info store token_id = do
  state ← ongoing_sale deps env store
  let purchases = unwrap_or (may_load info.sender store.purchases) []
  ensure (has token_id store.available_tokens) token_not_available
  limit ← max_possible state purchases
  ensure (ltb 0 limit) purchase_limit_reached
  bought ← purchase_tokens deps store (token_id ∷ []) info state purchases
  ok (save_purchases info.sender bought, [])

-- `number_of_tokens.map_or(max_possible, |n| cmp::min(n, max_possible))`
abbrev pub wanted : Option ℕ → ℕ → ℕ
wanted none limit = limit
wanted (some n) limit = min n limit

unfoldable pub execute_purchase :
    Deps → Env → MessageInfo → Store → Option ℕ → Result (Store × Response)
unfolding ongoing_sale max_possible
execute_purchase deps env info store number_of_tokens = do
  state ← ongoing_sale deps env store
  let purchases = unwrap_or (may_load info.sender store.purchases) []
  limit ← max_possible state purchases
  ensure (ltb 0 limit) purchase_limit_reached
  let token_ids = get_available_tokens store none (some (wanted number_of_tokens limit))
  bought ← purchase_tokens deps store token_ids info state purchases
  funds ← deduct_funds info.funds bought.required_payment
  let refund : Response =
      if deps.has_coins funds (record { denom = state.price.denom; amount = 1 })
      then new_sub_msg (bank_send info.sender funds) ∷ []
      else []
  ok (save_purchases info.sender bought, refund)
