-- ===== src/Crowdfund/Invariant/Handlers.antt =====
-- Buying keeps the invariant.
use flexible_pay_crowdfund_a.Base.{ℕ, ◌+◌, ◌≤◌, ◌≡◌, subst, Option, some, length, arith}
use flexible_pay_crowdfund_a.Chain.Result.{ok}
use flexible_pay_crowdfund_a.Chain.Dict.{save-IsSorted}
use flexible_pay_crowdfund_a.Chain.Message.{Response}
use flexible_pay_crowdfund_a.Chain.Deps.{Deps, Env, MessageInfo}
use flexible_pay_crowdfund_a.Crowdfund.State.{Store, State}
use flexible_pay_crowdfund_a.Crowdfund.Sale.{execute_purchase, execute_purchase_by_token_id}
use flexible_pay_crowdfund_a.Crowdfund.Sale.Payment.{
  purchase_tokens-Counts, purchase_tokens-BoughtBy, purchase_tokens_stocked,
}
use flexible_pay_crowdfund_a.Crowdfund.Sale.Call.{
  Buys, wallet, execute_purchase-Buys, execute_purchase_by_token_id-Buys,
}
use flexible_pay_crowdfund_a.Crowdfund.Transfer.{flat}
use flexible_pay_crowdfund_a.Crowdfund.Invariant.{IsValid, IsBalanced, IsLimited}
use flexible_pay_crowdfund_a.Crowdfund.Invariant.Lists.{
  length-flat-save, save-IsOwned, save-AllWithin, may_load-BoughtBy, may_load-AllWithin,
  remove_all-IsSorted,
}

-- What the invariant says of a stored sale.
IsBalanced-sale :
    {o : Option State} {s : State} (n : ℕ)
    → o ≡ some s
    → IsBalanced o n
    → n + s.amount_transferred ≡ s.amount_sold
IsBalanced-sale n e h = subst (λ p. IsBalanced p n) e h

Buys-IsValid :
    (deps : Deps) (env : Env) (info : MessageInfo) (store : Store) {out : Store × Response}
    → IsValid store
    → Buys deps env info store out
    → IsValid out.0
Buys-IsValid deps env info store v b =
    let state = b.state in
    let mine = wallet info.sender store in
    let (number, stocked) = purchase_tokens_stocked deps store b.ids info state mine b.call in
    let c = purchase_tokens-Counts deps store b.ids info state mine stocked b.call in
    let own =
      purchase_tokens-BoughtBy deps store b.ids info state mine
        (may_load-BoughtBy info.sender store.purchases v.owned) b.call in
    let (word, within) = subst (λ o. IsLimited o store.purchases) b.ongoing v.limited in
    let short = may_load-AllWithin state.max_amount_per_wallet info.sender store.purchases within in
    let balance = IsBalanced-sale (length (flat store.purchases)) b.ongoing v.balanced in
    let purchases = b.bought.purchases in
    let grown = length-flat-save info.sender purchases store.purchases v.sorted in
    let fits : length purchases ≤ state.max_amount_per_wallet =
      omega (arith, c.listed, b.below_limit) in
    rw (b.saved, c.same_purchases)
      (record {
        sorted = save-IsSorted info.sender purchases store.purchases v.sorted;
        owned = save-IsOwned info.sender purchases store.purchases own v.owned;
        stock = rw c.available (remove_all-IsSorted b.ids store.available_tokens v.stock);
        balanced = omega (arith, c.listed, c.sold, c.same_transferred);
        limited = rw c.same_max (
          word,
          save-AllWithin state.max_amount_per_wallet info.sender purchases store.purchases fits
              within,
        );
      })

-- A purchase of a number of tokens keeps the invariant: the lists stay sorted and owned, no wallet
-- goes over the limit of the sale, and the purchases stored are still those sold and not yet
-- transferred.
pub execute_purchase-IsValid :
    (deps : Deps) (env : Env) (info : MessageInfo) (store : Store) (n : Option ℕ)
    {out : Store × Response}
    → IsValid store
    → execute_purchase deps env info store n ≡ ok out
    → IsValid out.0
execute_purchase-IsValid deps env info store n v h =
    Buys-IsValid deps env info store v (execute_purchase-Buys deps env info store n h)

-- A purchase of one token by its id keeps the invariant, the wallet limit and the balance of the
-- purchases stored against those sold and transferred included.
pub execute_purchase_by_token_id-IsValid :
    (deps : Deps) (env : Env) (info : MessageInfo) (store : Store) (t : ℕ) {out : Store × Response}
    → IsValid store
    → execute_purchase_by_token_id deps env info store t ≡ ok out
    → IsValid out.0
execute_purchase_by_token_id-IsValid deps env info store t v h =
    Buys-IsValid deps env info store v (execute_purchase_by_token_id-Buys deps env info store t h)
