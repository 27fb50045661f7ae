-- ===== src/Tests/Rounds.antt =====
-- Rounds of transfers, and a sale that an empty entry keeps from ending, on the small chain.
use flexible_pay_crowdfund_a.Base.{
  ℕ, ◌≡◌, ◌≢◌, refl, inl, true, false, none, some, List, [], ◌∷◌, arith,
}
use flexible_pay_crowdfund_a.Chain.Result.{ok}
use flexible_pay_crowdfund_a.Chain.Coin.{merge_coins, merge_coin}
use flexible_pay_crowdfund_a.Chain.Dict.{Dict, may_load, remove, save}
use flexible_pay_crowdfund_a.Chain.Message.{Response}
use flexible_pay_crowdfund_a.Chain.Merge.{merge_bank, merge_msg, merge_loop, merge_sub_msgs}
use flexible_pay_crowdfund_a.Chain.Deps.{at_time, MessageInfo}
use flexible_pay_crowdfund_a.Crowdfund.State.{Store, State, Purchase}
use flexible_pay_crowdfund_a.Crowdfund.Sale.{new_purchase}
use flexible_pay_crowdfund_a.Crowdfund.Transfer.{
  last_purchasers, remove_purchaser, transfer_purchase, transfer_loop, trim_last, transfer_tokens,
  transfer_tokens_and_send_funds,
}
use flexible_pay_crowdfund_a.Crowdfund.Transfer.Progress.{
  Advanced, transfer_tokens-Advanced, transfer_tokens_strands,
}
use flexible_pay_crowdfund_a.Crowdfund.Transfer.Total.{transfer_tokens_total}
use flexible_pay_crowdfund_a.Crowdfund.Invariant.{IsValid}
use flexible_pay_crowdfund_a.Crowdfund.Invariant.Ending.{transfer_tokens_and_send_funds-IsValid}
use flexible_pay_crowdfund_a.Crowdfund.End.{execute_end_sale}
use flexible_pay_crowdfund_a.Crowdfund.Stranded.{execute_end_sale_stuck}
use flexible_pay_crowdfund_a.Tests.{value_or, coin, deps, at_second, ado, to_charity}

abbrev sold : ℕ → State
sold n = record {
  end_time = at_time 5000000000000;
  price = coin 1 100;
  min_tokens_sold = 1;
  max_amount_per_wallet = 4;
  amount_sold = n;
  amount_to_send = 90;
  amount_transferred = 0;
  recipient = to_charity;
}

abbrev with_purchases : State → Dict (List Purchase) → Store
with_purchases state purchases = record {
  ado = ado;
  config = some (record { token_address = 50; can_mint_after_sale = false });
  number_of_tokens_available = some 0;
  state = some state;
  purchases = purchases;
  available_tokens = [];
  sale_conducted = some true;
}

abbrev three : Dict (List Purchase)
three =
    (5, new_purchase 5 [] 10 5 ∷ [])
    ∷ (7, new_purchase 7 [] 11 5 ∷ new_purchase 7 [] 12 5 ∷ [])
    ∷ []

abbrev after_round : Store × Response
after_round =
    value_or (with_purchases (sold 3) three, [])
      (transfer_tokens deps (with_purchases (sold 3) three) (sold 3) 2)

round_succeeds : transfer_tokens deps (with_purchases (sold 3) three) (sold 3) 2 ≡ ok after_round
unfolding transfer_tokens transfer_loop transfer_purchase remove_purchaser trim_last last_purchasers
    merge_sub_msgs merge_loop merge_msg merge_bank merge_coins merge_coin remove save
round_succeeds = refl

transfer_tokens-Advanced_example :
    Advanced deps (with_purchases (sold 3) three) (sold 3) 2 after_round
transfer_tokens-Advanced_example =
    transfer_tokens-Advanced deps (with_purchases (sold 3) three) (sold 3) 2 (omega arith)
      (omega arith, tt) ((refl, tt), ((refl, (refl, tt)), tt)) round_succeeds

abbrev two : Dict (List Purchase)
two = (7, new_purchase 7 [] 11 5 ∷ new_purchase 7 [] 12 5 ∷ []) ∷ []

abbrev after_last : Store × Response
after_last =
    value_or (with_purchases (sold 2) two, [])
      (transfer_tokens deps (with_purchases (sold 2) two) (sold 2) 50)

last_succeeds : transfer_tokens deps (with_purchases (sold 2) two) (sold 2) 50 ≡ ok after_last
unfolding transfer_tokens transfer_loop transfer_purchase remove_purchaser trim_last last_purchasers
    merge_sub_msgs merge_loop merge_msg merge_bank merge_coins merge_coin remove save
last_succeeds = refl

same_buyer : last_purchasers (new_purchase 7 [] 11 5 ∷ new_purchase 7 [] 12 5 ∷ []) ≡ ok (7, 7)
unfolding last_purchasers
same_buyer = refl

transfer_tokens_strands_example : may_load 7 after_last.0.purchases ≡ some []
transfer_tokens_strands_example =
    transfer_tokens_strands deps (with_purchases (sold 2) two) (sold 2) 50 (omega arith) tt
      ((refl, (refl, tt)), tt) 7 (omega arith) same_buyer last_succeeds

-- The next sale: nothing was sold of a minimum of one, and the empty entry is still stored.
abbrev stuck : Store
stuck = with_purchases (sold 0) ((7, []) ∷ [])

abbrev ender : MessageInfo
ender = record { sender = 9; funds = [] }

execute_end_sale_stuck_example :
    execute_end_sale deps (at_second 6000) ender none stuck none ≢ ok (stuck, [])
execute_end_sale_stuck_example =
    execute_end_sale_stuck deps (at_second 6000) ender none stuck none refl (omega arith) (inl refl)

nothing_to_merge : merge_sub_msgs [] ≡ ok []
unfolding merge_sub_msgs merge_loop
nothing_to_merge = refl

transfer_tokens_total_example :
    (out : Store × Response) × (transfer_tokens deps (with_purchases (sold 3) three) (sold 3) 2
      ≡ ok out)
    × Advanced deps (with_purchases (sold 3) three) (sold 3) 2 out
transfer_tokens_total_example =
    transfer_tokens_total deps (with_purchases (sold 3) three) (sold 3) 2 (omega arith)
      (omega arith, tt) ((refl, tt), ((refl, (refl, tt)), tt)) refl refl (omega arith) (omega arith)
      nothing_to_merge

three-IsValid : IsValid (with_purchases (sold 3) three)
three-IsValid = record {
  sorted = (omega arith, tt);
  owned = ((refl, tt), ((refl, (refl, tt)), tt));
  stock = tt;
  balanced = refl;
  limited = (omega arith, (omega arith, (omega arith, tt)));
}

abbrev after_sending : Store × Response
after_sending =
    value_or (with_purchases (sold 3) three, [])
      (transfer_tokens_and_send_funds deps (at_second 6000) ender none
        (with_purchases (sold 3) three) (some 2))

sending_succeeds :
    transfer_tokens_and_send_funds deps
      (at_second 6000)
      ender
      none
      (with_purchases (sold 3) three)
      (some 2)
    ≡ ok after_sending
unfolding transfer_tokens_and_send_funds transfer_tokens transfer_loop transfer_purchase
    remove_purchaser trim_last last_purchasers merge_sub_msgs merge_loop merge_msg merge_bank
    merge_coins merge_coin remove save
sending_succeeds = refl

transfer_tokens_and_send_funds-IsValid_example : IsValid after_sending.0
transfer_tokens_and_send_funds-IsValid_example =
    transfer_tokens_and_send_funds-IsValid deps (at_second 6000) ender none
      (with_purchases (sold 3) three) (some 2) three-IsValid sending_succeeds
