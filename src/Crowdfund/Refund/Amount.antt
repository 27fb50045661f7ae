-- ===== src/Crowdfund/Refund/Amount.antt =====
-- What a refund pays: exactly what the purchases were paid for.
use flexible_pay_crowdfund_a.Base.{ℕ, ◌+◌, ◌≤◌, ◌≡◌, ap, List, [], ◌∷◌, arith}
use flexible_pay_crowdfund_a.Chain.Result.{ok}
use flexible_pay_crowdfund_a.Chain.Uint.{u128_max, add_or_panic}
use flexible_pay_crowdfund_a.Chain.Coin.{Coin}
use flexible_pay_crowdfund_a.Chain.Dict.{remove}
use flexible_pay_crowdfund_a.Crowdfund.State.{Store, Purchase}
use flexible_pay_crowdfund_a.Crowdfund.Paid.{paid}
use flexible_pay_crowdfund_a.Crowdfund.Refund.{sum_refund, refund_msg, process_refund}

add_fits : (a b : ℕ) → a + b ≤ u128_max → add_or_panic u128_max a b ≡ ok (a + b)
add_fits a b h = ground arith

sum_refund-paid :
    (price acc : ℕ) (ps : List Purchase)
    → acc + paid price ps ≤ u128_max
    → sum_refund price acc ps ≡ ok (acc + paid price ps)
unfolding sum_refund
sum_refund-paid price acc [] h = ap ok (omega arith)
sum_refund-paid price acc (p ∷ ps) h =
    rw
      (
        add_fits p.tax_amount price (omega arith),
        add_fits acc (p.tax_amount + price) (omega arith),
        sum_refund-paid price (acc + (p.tax_amount + price)) ps (omega arith),
      )
      (ap ok (omega arith))

-- A buyer's purchases that were paid within the range of `Uint128` are refunded without a panic, for
-- what they were paid for in the price's denomination, to the buyer of the first; no message is sent
-- if that is zero. The buyer's entry is removed, and nothing else of the storage changes.
pub process_refund-paid :
    (store : Store) (p : Purchase) (ps : List Purchase) (price : Coin)
    → paid price.amount (p ∷ ps) ≤ u128_max
    → process_refund store (p ∷ ps) price
      ≡ ok (
        refund_msg p.purchaser price (paid price.amount (p ∷ ps)),
        record store { purchases = remove p.purchaser store.purchases },
      )
unfolding process_refund
process_refund-paid store p ps price h = rw (
  add_fits p.tax_amount price.amount (omega arith),
  sum_refund-paid price.amount (p.tax_amount + price.amount) ps (omega arith),
)
