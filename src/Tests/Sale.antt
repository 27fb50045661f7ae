-- ===== src/Tests/Sale.antt =====
-- A sale of tokens at 100 each, with one purchase made, on the small chain.
use flexible_pay_crowdfund_a.Base.{
  ◌+◌, ◌*◌, ◌≡◌, ◌<◌, refl, true, false, none, some, List, [], ◌∷◌, arith,
}
use flexible_pay_crowdfund_a.Chain.Result.{ok}
use flexible_pay_crowdfund_a.Chain.Coin.{Funds, native, try_get_coin, deduct_funds}
use flexible_pay_crowdfund_a.Chain.Dict.{save, remove}
use flexible_pay_crowdfund_a.Chain.Message.{SubMsg, Response, bank_send}
use flexible_pay_crowdfund_a.Chain.Deps.{at_time, MessageInfo}
use flexible_pay_crowdfund_a.Ado.Base.{is_contract_owner}
use flexible_pay_crowdfund_a.Ado.Recipient
use flexible_pay_crowdfund_a.Ado.Modules.{
  process_module_response, load_modules, ask_modules, on_funds_transfer,
}
use flexible_pay_crowdfund_a.Chain.Outflow.{outflows}
use flexible_pay_crowdfund_a.Ado.Rates.{
  sent_amount, sum_sent, reduce_sent, get_tax_amount, AllCounted,
}
use flexible_pay_crowdfund_a.Crowdfund.State.{Store, State, get_available_tokens}
use flexible_pay_crowdfund_a.Crowdfund.Paid.{paid}
use flexible_pay_crowdfund_a.Crowdfund.Sale.{
  StartSale, execute_start_sale, Bought, new_purchase, purchase_token, purchase_loop,
  purchase_tokens, ongoing_sale, max_possible, execute_purchase, execute_purchase_by_token_id,
}
use flexible_pay_crowdfund_a.Crowdfund.Sale.Loop.{left_of}
use flexible_pay_crowdfund_a.Crowdfund.Sale.Payment.{
  Counts, purchase_tokens-conserves, purchase_tokens-Counts,
}
use flexible_pay_crowdfund_a.Crowdfund.Refund.{process_refund}
use flexible_pay_crowdfund_a.Crowdfund.Refund.Amount.{process_refund-paid}
use flexible_pay_crowdfund_a.Crowdfund.Refund.RoundTrip.{purchase-refund}
use flexible_pay_crowdfund_a.Crowdfund.Mint.{
  CrowdfundMintMsg, execute_mint, mint_all, mint, add_available,
}
use flexible_pay_crowdfund_a.Crowdfund.Invariant.{IsValid}
use flexible_pay_crowdfund_a.Crowdfund.Invariant.Minting.{Minted, execute_mint-Minted}
use flexible_pay_crowdfund_a.Crowdfund.Invariant.Handlers.{
  execute_purchase-IsValid, execute_purchase_by_token_id-IsValid,
}
use flexible_pay_crowdfund_a.Tests.{value_or, coin, deps, at_second, ado, to_charity}

abbrev sale : State
sale = record {
  end_time = at_time 5000000000000;
  price = coin 1 100;
  min_tokens_sold = 3;
  max_amount_per_wallet = 4;
  amount_sold = 1;
  amount_to_send = 90;
  amount_transferred = 0;
  recipient = to_charity;
}

abbrev store : Store
store = record {
  ado = ado;
  config = some (record { token_address = 50; can_mint_after_sale = false });
  number_of_tokens_available = some 3;
  state = some sale;
  purchases = (5, new_purchase 5 [] 10 5 ∷ []) ∷ [];
  available_tokens = (11, true) ∷ (12, true) ∷ (13, true) ∷ [];
  sale_conducted = some true;
}

store-IsValid : IsValid store
store-IsValid = record {
  sorted = tt;
  owned = ((refl, tt), tt);
  stock = (omega arith, (omega arith, tt));
  balanced = refl;
  limited = (omega arith, (omega arith, tt));
}

abbrev buyer : MessageInfo
buyer = record { sender = 7; funds = coin 1 300 ∷ [] }

abbrev no_purchase : Bought
no_purchase = record { required_payment = coin 1 0; sale = sale; purchases = []; store = store }

abbrev two_bought : Bought
two_bought = value_or no_purchase (purchase_tokens deps store (11 ∷ 12 ∷ []) buyer sale [])

bought_two : purchase_tokens deps store (11 ∷ 12 ∷ []) buyer sale [] ≡ ok two_bought
unfolding purchase_tokens purchase_loop purchase_token try_get_coin get_tax_amount reduce_sent
    sum_sent sent_amount on_funds_transfer load_modules ask_modules process_module_response
bought_two = refl

purchase_tokens_cost : two_bought.required_payment ≡ coin 1 210
unfolding purchase_tokens purchase_loop purchase_token try_get_coin get_tax_amount reduce_sent
    sum_sent sent_amount on_funds_transfer load_modules ask_modules process_module_response
purchase_tokens_cost = refl

abbrev taxes : List SubMsg × Funds
taxes = value_or ([], native (coin 1 0)) (on_funds_transfer deps ado 7 (native (coin 1 100)))

taxed : on_funds_transfer deps ado 7 (native (coin 1 100)) ≡ ok taxes
unfolding on_funds_transfer load_modules ask_modules process_module_response
taxed = refl

taxes-AllCounted : AllCounted 1 taxes.0
unfolding on_funds_transfer load_modules ask_modules process_module_response
taxes-AllCounted = ((refl, refl), ((refl, refl), tt))

purchase_tokens-conserves_example :
    (two_bought.required_payment.denom ≡ 1)
    × (two_bought.required_payment.amount ≡ 2 * (left_of taxes.1 + outflows 1 taxes.0))
    × (two_bought.sale.amount_to_send ≡ 90 + 2 * left_of taxes.1)
    × (paid 100 two_bought.purchases ≡ paid 100 [] + two_bought.required_payment.amount)
purchase_tokens-conserves_example =
    purchase_tokens-conserves deps store (11 ∷ 12 ∷ []) buyer sale [] taxed taxes-AllCounted
      bought_two

purchase_tokens-Counts_example : Counts deps store (11 ∷ 12 ∷ []) buyer sale [] 3 two_bought
purchase_tokens-Counts_example =
    purchase_tokens-Counts deps store (11 ∷ 12 ∷ []) buyer sale [] refl bought_two

purchase_positive : 0 < two_bought.required_payment.amount
unfolding purchase_tokens purchase_loop purchase_token try_get_coin get_tax_amount reduce_sent
    sum_sent sent_amount on_funds_transfer load_modules ask_modules process_module_response
purchase_positive = omega arith

purchase-refund_example :
    process_refund store two_bought.purchases (coin 1 100)
    ≡ ok (
      some (bank_send 7 (two_bought.required_payment ∷ [])),
      record store { purchases = remove 7 store.purchases },
    )
purchase-refund_example =
    purchase-refund deps store (11 ∷ 12 ∷ []) buyer sale store refl bought_two purchase_positive

process_refund-paid_example :
    process_refund store (new_purchase 5 [] 10 5 ∷ new_purchase 5 [] 12 7 ∷ []) (coin 1 100)
    ≡ ok (
      some (bank_send 5 (coin 1 212 ∷ [])),
      record store { purchases = remove 5 store.purchases },
    )
process_refund-paid_example =
    process_refund-paid store (new_purchase 5 [] 10 5) (new_purchase 5 [] 12 7 ∷ []) (coin 1 100)
      (omega arith)

abbrev after_purchase : Store × Response
after_purchase = value_or (store, []) (execute_purchase deps (at_second 100) buyer store (some 2))

purchase_succeeds : execute_purchase deps (at_second 100) buyer store (some 2) ≡ ok after_purchase
unfolding execute_purchase deduct_funds get_available_tokens ongoing_sale max_possible
    purchase_tokens purchase_loop purchase_token try_get_coin get_tax_amount reduce_sent sum_sent
    sent_amount on_funds_transfer load_modules ask_modules process_module_response
purchase_succeeds = refl

execute_purchase-IsValid_example : IsValid after_purchase.0
execute_purchase-IsValid_example =
    execute_purchase-IsValid deps (at_second 100) buyer store (some 2) store-IsValid
      purchase_succeeds

abbrev after_choice : Store × Response
after_choice =
    value_or (store, []) (execute_purchase_by_token_id deps (at_second 100) buyer store 12)

choice_succeeds : execute_purchase_by_token_id deps (at_second 100) buyer store 12 ≡ ok after_choice
unfolding execute_purchase_by_token_id ongoing_sale max_possible purchase_tokens purchase_loop
    purchase_token try_get_coin get_tax_amount reduce_sent sum_sent sent_amount on_funds_transfer
    load_modules ask_modules process_module_response
choice_succeeds = refl

execute_purchase_by_token_id-IsValid_example : IsValid after_choice.0
execute_purchase_by_token_id-IsValid_example =
    execute_purchase_by_token_id-IsValid deps (at_second 100) buyer store 12 store-IsValid
      choice_succeeds

-- The whole payment stays with the contract when a token is bought by its id: nothing is sent back
-- of the 300 that came for a token that costs 105.
overpaid_by_id : after_choice.1 ≡ []
unfolding execute_purchase_by_token_id ongoing_sale max_possible purchase_tokens purchase_loop
    purchase_token try_get_coin get_tax_amount reduce_sent sum_sent sent_amount on_funds_transfer
    load_modules ask_modules process_module_response
overpaid_by_id = refl

abbrev idle : Store
idle = record store { state = none; purchases = []; sale_conducted = some false }

idle-IsValid : IsValid idle
idle-IsValid = record {
  sorted = tt;
  owned = tt;
  stock = (omega arith, (omega arith, tt));
  balanced = refl;
  limited = tt;
}

abbrev owner : MessageInfo
owner = record { sender = 3; funds = [] }

abbrev terms : StartSale
terms = record {
  start_time = none;
  end_time = 5000000;
  price = coin 1 100;
  min_tokens_sold = 3;
  max_amount_per_wallet = some 4;
  recipient = to_charity;
}

abbrev after_start : Store × Response
after_start = value_or (idle, []) (execute_start_sale deps (at_second 100) owner idle terms)

abbrev one_for_sale : List CrowdfundMintMsg
one_for_sale = record { token_id = 14; owner = none; token_uri = none; extension = 0 } ∷ []

abbrev after_mint : Store × Response
after_mint = value_or (idle, []) (execute_mint deps (at_second 100) owner idle one_for_sale)

mint_succeeds : execute_mint deps (at_second 100) owner idle one_for_sale ≡ ok after_mint
unfolding execute_mint is_contract_owner mint_all mint add_available save
mint_succeeds = refl

execute_mint-Minted_example : Minted deps (at_second 100) owner idle one_for_sale after_mint
execute_mint-Minted_example =
    execute_mint-Minted deps (at_second 100) owner idle one_for_sale idle-IsValid mint_succeeds
