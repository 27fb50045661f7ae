-- ===== src/Tests/Coins.antt =====
-- The helpers of packages/std on concrete coins, times and messages.
use flexible_pay_crowdfund_a.Base.{◌≡◌, refl, List, [], ◌∷◌}
use flexible_pay_crowdfund_a.Chain.Result.{ok}
use flexible_pay_crowdfund_a.Chain.Coin.{
  merge_coin, merge_from, merge_coins, deduct_from, deduct_funds,
}
use flexible_pay_crowdfund_a.Chain.Message.{SubMsg, new_sub_msg, bank_send}
use flexible_pay_crowdfund_a.Ado.Rates.{sent_amount, sum_sent, reduce_sent, get_tax_amount}
use flexible_pay_crowdfund_a.Tests.{coin}

-- Of two coins of one denomination, the first is used up and the second covers the rest.
deducted :
    deduct_funds (coin 1 150 ∷ coin 2 9 ∷ coin 1 50 ∷ []) (coin 1 160)
    ≡ ok (coin 1 0 ∷ coin 2 9 ∷ coin 1 40 ∷ [])
unfolding deduct_funds deduct_from
deducted = refl

merged :
    merge_coins (coin 1 3 ∷ coin 2 9 ∷ []) (coin 2 4 ∷ coin 3 1 ∷ [])
    ≡ ok (coin 1 3 ∷ coin 2 13 ∷ coin 3 1 ∷ [])
unfolding merge_coins merge_from merge_coin
merged = refl

-- A tax of 5, and a royalty of 10 that the price includes.
abbrev taxed : List SubMsg
taxed =
    new_sub_msg (bank_send 70 (coin 1 5 ∷ [])) ∷ new_sub_msg (bank_send 71 (coin 1 10 ∷ [])) ∷ []

tax_of_hundred : get_tax_amount taxed 100 90 ≡ ok 5
unfolding get_tax_amount reduce_sent sum_sent sent_amount
tax_of_hundred = refl
