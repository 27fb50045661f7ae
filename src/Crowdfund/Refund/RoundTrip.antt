-- ===== src/Crowdfund/Refund/RoundTrip.antt =====
-- Buying and being refunded: the two halves of contract.rs that must agree on what a token cost.
use flexible_pay_crowdfund_a.Base.{ℕ, ◌≤◌, ◌<◌, ◌≡◌, ap, ◌∙◌, List, [], ◌∷◌, some, length, arith}
use flexible_pay_crowdfund_a.Chain.Result.{ok}
use flexible_pay_crowdfund_a.Chain.Uint.{u128_max}
use flexible_pay_crowdfund_a.Chain.Coin.{Coin}
use flexible_pay_crowdfund_a.Chain.Dict.{remove}
use flexible_pay_crowdfund_a.Chain.Message.{bank_send}
use flexible_pay_crowdfund_a.Chain.Deps.{Deps, MessageInfo}
use flexible_pay_crowdfund_a.Crowdfund.State.{Store, State, Purchase}
use flexible_pay_crowdfund_a.Crowdfund.Paid.{paid, BoughtBy}
use flexible_pay_crowdfund_a.Crowdfund.Refund.{refund_msg, process_refund}
use flexible_pay_crowdfund_a.Crowdfund.Refund.Amount.{process_refund-paid}
use flexible_pay_crowdfund_a.Crowdfund.Sale.{Bought, purchase_tokens}
use flexible_pay_crowdfund_a.Crowdfund.Sale.Payment.{
  purchase_tokens-counted, purchase_tokens-Counts, purchase_tokens-BoughtBy, purchase_tokens_checks,
}

-- The refund of a buyer's list, for every way to write what it was paid for.
pub refund_of_list :
    (later : Store) (buyer amount : ℕ) (ps : List Purchase) (price : Coin)
    → 0 < length ps
    → BoughtBy buyer ps
    → paid price.amount ps ≡ amount
    → amount ≤ u128_max
    → process_refund later ps price
      ≡ ok
          (refund_msg buyer price amount, record later { purchases = remove buyer later.purchases })
refund_of_list later buyer amount [] price h own e fits = absurd (omega arith)
refund_of_list later buyer amount (p ∷ ps) price h own e fits =
    rw (← e, ← own.0) (process_refund-paid later p ps price (omega arith))

refund_msg_positive :
    (buyer : ℕ) (price required : Coin)
    → required.denom ≡ price.denom
    → 0 < required.amount
    → refund_msg buyer price required.amount ≡ some (bank_send buyer (required ∷ []))
refund_msg_positive buyer price required e h = ground arith

-- A first purchase, refunded later in whatever storage, gives the buyer back the very coin that was
-- required, in one message, and without an error; it removes the buyer's entry and nothing else.
pub purchase-refund :
    (deps : Deps) (store : Store) (ids : List ℕ) (info : MessageInfo) (state : State)
    (later : Store) {number : ℕ} {b : Bought}
    → store.number_of_tokens_available ≡ some number
    → purchase_tokens deps store ids info state [] ≡ ok b
    → 0 < b.required_payment.amount
    → process_refund later b.purchases state.price
      ≡ ok (
        some (bank_send info.sender (b.required_payment ∷ [])),
        record later { purchases = remove info.sender later.purchases },
      )
purchase-refund deps store ids info state later {number} {b} stock h positive =
    let (msgs, rest, asked, denom, _, _, owed) =
      purchase_tokens-counted deps store ids info state [] h in
    let (some_ids, fits, _) = purchase_tokens_checks deps store ids info state [] h in
    let counts = purchase_tokens-Counts deps store ids info state [] stock h in
    let back =
      refund_of_list later info.sender b.required_payment.amount b.purchases state.price
        (omega (arith, counts.listed)) (purchase_tokens-BoughtBy deps store ids info state [] tt h)
        (omega arith) fits in
    back
    ∙ ap (λ m. ok (m, record later { purchases = remove info.sender later.purchases }))
        (refund_msg_positive info.sender state.price b.required_payment denom positive)
