-- ===== src/Crowdfund/Sale/Payment.antt =====
-- What `purchase_tokens` takes from the buyer, and where it goes.
use flexible_pay_crowdfund_a.Base.{
  ℕ, ◌+◌, ◌-◌, ◌*◌, ◌≤◌, ◌<◌, ◌≡◌, refl, ap, sym, ◌∙◌, true, some, List, [], ◌∷◌, length, is_empty,
  not, arith,
}
use flexible_pay_crowdfund_a.Chain.Result.{
  ok, ok_injective, WhenOk, WhenOk-ok, WhenOk-bind, ensure, ensure-eq-ok, or_err, or_err-eq-ok,
  all_tokens_purchased, insufficient_funds, not_found,
}
use flexible_pay_crowdfund_a.Chain.Uint.{
  u128_max, mul_or_panic, checked_mul, checked_add, checked_add-eq-ok, checked_mul-eq-ok,
}
use flexible_pay_crowdfund_a.Chain.Coin.{Coin, Funds, native}
use flexible_pay_crowdfund_a.Chain.Deps.{Deps, MessageInfo}
use flexible_pay_crowdfund_a.Chain.Message.{SubMsg}
use flexible_pay_crowdfund_a.Ado.Modules.{on_funds_transfer}
use flexible_pay_crowdfund_a.Ado.Rates.{total_sent, AllCounted, total_sent-outflows}
use flexible_pay_crowdfund_a.Chain.Outflow.{outflows}
use flexible_pay_crowdfund_a.Crowdfund.State.{Store, State, Purchase}
use flexible_pay_crowdfund_a.Crowdfund.Paid.{paid, BoughtBy}
use flexible_pay_crowdfund_a.Crowdfund.Refund.{remove_all}
use flexible_pay_crowdfund_a.Crowdfund.Sale.{Bought, Cart, purchase_loop, purchase_tokens}
use flexible_pay_crowdfund_a.Crowdfund.Sale.Loop.{
  left_of, purchase_loop-Rounds, purchase_loop-Listed,
}

add_in_range : (max a b : ℕ) {r : ℕ} → checked_add max a b ≡ ok r → r ≤ max
add_in_range max a b h = ground arith

nonempty_length : (ids : List ℕ) → not (is_empty ids) ≡ true → 0 < length ids
nonempty_length [] h = cc
nonempty_length (x ∷ xs) h = omega arith

module _ (deps : Deps) (store : Store) (ids : List ℕ) (info : MessageInfo) (state : State)
    (purchases : List Purchase) where
  abbrev cart_at : ℕ → Cart
  cart_at n = record {
    total_tax_amount = 0;
    sale = state;
    purchases = purchases;
    available_tokens = store.available_tokens;
    current_number = n;
  }

  abbrev payment : Cart → Coin
  payment d = record {
    denom = state.price.denom;
    amount = state.price.amount * length ids + d.total_tax_amount;
  }

  -- The calls that a successful `purchase_tokens` has made.
  record Calls (b : Bought) : Type 0 where
    msgs : List SubMsg
    remainder : Funds
    number : ℕ
    done : Cart
    nonempty : not (is_empty ids) ≡ true
    asked : on_funds_transfer deps store.ado info.sender (native state.price) ≡ ok (msgs, remainder)
    stored : store.number_of_tokens_available ≡ some number
    looped : purchase_loop info.sender msgs remainder ids (cart_at number) ≡ ok done
    fits : state.price.amount * length ids + done.total_tax_amount ≤ u128_max
    covered : deps.has_coins info.funds (payment done) ≡ true
    result : b ≡ record {
      required_payment = payment done;
      sale = done.sale;
      purchases = done.purchases;
      store = record store {
        available_tokens = done.available_tokens;
        number_of_tokens_available = some done.current_number;
      };
    }

  calls : WhenOk Calls (purchase_tokens deps store ids info state purchases)
  unfolding purchase_tokens
  calls = WhenOk-bind Calls (ensure (not (is_empty ids)) all_tokens_purchased) _ λ _ some_ids.
      WhenOk-bind Calls (mul_or_panic u128_max state.price.amount (length ids)) _ λ cost _.
        WhenOk-bind Calls
          (ensure (deps.has_coins info.funds (record { denom = state.price.denom; amount = cost }))
            insufficient_funds)
          _
          λ _ _.
            WhenOk-bind Calls (on_funds_transfer deps store.ado info.sender (native state.price)) _
              λ mr asked.
                WhenOk-bind Calls (or_err store.number_of_tokens_available not_found) _
                  λ number stored.
                    WhenOk-bind Calls (purchase_loop info.sender mr.0 mr.1 ids (cart_at number)) _
                      λ done looped.
                        WhenOk-bind Calls (checked_mul u128_max state.price.amount (length ids)) _
                          λ base mul.
                            WhenOk-bind Calls (checked_add u128_max base done.total_tax_amount) _
                              λ amount add.
                                let required : Coin = record {
                                  denom = state.price.denom;
                                  amount = amount;
                                } in
                                WhenOk-bind Calls
                                  (ensure (deps.has_coins info.funds required) insufficient_funds) _
                                  λ _ has.
                                    let sums : amount
                                        ≡ state.price.amount * length ids + done.total_tax_amount =
                                      omega (
                                        arith,
                                        (checked_add-eq-ok u128_max base done.total_tax_amount
                                            add).0,
                                        (checked_mul-eq-ok u128_max state.price.amount (length ids)
                                            mul).0,
                                      ) in
                                    record {
                                      msgs = mr.0;
                                      remainder = mr.1;
                                      number = number;
                                      done = done;
                                      nonempty = ensure-eq-ok _ all_tokens_purchased some_ids;
                                      asked = asked;
                                      stored =
                                          or_err-eq-ok store.number_of_tokens_available not_found
                                            stored;
                                      looped = looped;
                                      fits =
                                          rw (← sums)
                                            (add_in_range u128_max base done.total_tax_amount add);
                                      covered = rw (← sums) (ensure-eq-ok _ insufficient_funds has);
                                      result = rw (← sums);
                                    }

  -- What a purchase's payment is made of. What the buyer must pay is, for each token, what the rates
  -- modules leave over and what is counted of their messages; the first is added to what the recipient will
  -- get, and the whole is what the buyer's list of purchases is now worth more in a refund.
  pub purchase_tokens-counted :
      {b : Bought}
      → purchase_tokens deps store ids info state purchases ≡ ok b
      → (msgs : List SubMsg) × (remainder : Funds) × (on_funds_transfer deps store.ado info.sender
            (native state.price)
          ≡ ok (msgs, remainder))
        × (b.required_payment.denom ≡ state.price.denom)
        × (b.required_payment.amount ≡ length ids * (left_of remainder + total_sent msgs))
        × (b.sale.amount_to_send ≡ state.amount_to_send + length ids * left_of remainder)
        × (paid state.price.amount b.purchases
            ≡ paid state.price.amount purchases + b.required_payment.amount)
  purchase_tokens-counted {b} h =
      let c = WhenOk-ok Calls (purchase_tokens deps store ids info state purchases) calls h in
      let r =
        WhenOk-ok _ _ (purchase_loop-Rounds info.sender c.msgs c.remainder ids (cart_at c.number))
          c.looped in
      (
        c.msgs,
        c.remainder,
        c.asked,
        rw c.result refl,
        rw c.result (omega arith),
        rw c.result r.to_send,
        rw c.result (omega arith),
      )

  -- Where a purchase's payment goes, if the rates modules answer with messages that send nothing in
  -- the price's denomination but the one coin that is counted of each bank message, which has that
  -- denomination. What the buyer must pay is then, for each token, what the modules leave over and
  -- what their messages take out of the contract in that denomination; the first is added to what the
  -- recipient will get, and the whole is what the buyer's purchases are now worth more in a refund.
  pub purchase_tokens-conserves :
      {b : Bought} {msgs : List SubMsg} {remainder : Funds}
      → on_funds_transfer deps store.ado info.sender (native state.price) ≡ ok (msgs, remainder)
      → AllCounted state.price.denom msgs
      → purchase_tokens deps store ids info state purchases ≡ ok b
      → (b.required_payment.denom ≡ state.price.denom)
        × (b.required_payment.amount
            ≡ length ids * (left_of remainder + outflows state.price.denom msgs))
        × (b.sale.amount_to_send ≡ state.amount_to_send + length ids * left_of remainder)
        × (paid state.price.amount b.purchases
            ≡ paid state.price.amount purchases + b.required_payment.amount)
  purchase_tokens-conserves {b} {msgs} {remainder} asked counted h =
      let (ms, rem, called, denom, amount, to_send, worth) = purchase_tokens-counted h in
      let same : (ms, rem) ≡ (msgs, remainder) = ok_injective (sym called ∙ asked) in
      (
        denom,
        amount
            ∙ (λ i. length ids * (left_of (same i).1 + total_sent (same i).0))
            ∙ ap (λ n. length ids * (left_of remainder + n))
                (total_sent-outflows state.price.denom msgs counted),
        to_send ∙ (λ i. state.amount_to_send + length ids * left_of (same i).1),
        worth,
      )

  -- What a purchase has counted.
  pub record Counts (number : ℕ) (b : Bought) : Type 0 where
    pub sold : b.sale.amount_sold ≡ state.amount_sold + length ids
    pub listed : length b.purchases ≡ length purchases + length ids
    pub enough : length ids ≤ number
    pub in_stock : b.store.number_of_tokens_available ≡ some (number - length ids)
    pub available : b.store.available_tokens ≡ remove_all ids store.available_tokens
    pub same_transferred : b.sale.amount_transferred ≡ state.amount_transferred
    pub same_max : b.sale.max_amount_per_wallet ≡ state.max_amount_per_wallet
    pub same_min : b.sale.min_tokens_sold ≡ state.min_tokens_sold
    pub same_price : b.sale.price ≡ state.price
    pub same_purchases : b.store.purchases ≡ store.purchases

  -- A purchase counts its tokens once everywhere: in the number sold, in the buyer's list, and out
  -- of the number and the set of those available. Price, minimum, limit and the number transferred
  -- stay, and so do the stored lists until the handler saves the buyer's.
  pub purchase_tokens-Counts :
      {b : Bought} {number : ℕ}
      → store.number_of_tokens_available ≡ some number
      → purchase_tokens deps store ids info state purchases ≡ ok b
      → Counts number b
  purchase_tokens-Counts {b} {number} e h =
      let c = WhenOk-ok Calls (purchase_tokens deps store ids info state purchases) calls h in
      let r =
        WhenOk-ok _ _ (purchase_loop-Rounds info.sender c.msgs c.remainder ids (cart_at c.number))
          c.looped in
      let l =
        WhenOk-ok _ _ (purchase_loop-Listed info.sender c.msgs c.remainder ids (cart_at c.number))
          c.looped in
      let same : c.number ≡ number = ground (arith, c.stored) in
      let left : c.done.current_number ≡ number - length ids = omega (arith, same, r.counted) in
      rw c.result (record {
        sold = r.sold;
        listed = r.listed;
        enough = omega (arith, same, r.counted);
        in_stock = ap some left;
        available = l.1;
        same_transferred = r.same_transferred;
        same_max = r.same_max;
        same_min = r.same_min;
        same_price = r.same_price;
        same_purchases = refl;
      })

  -- The buyer's list stays the buyer's.
  pub purchase_tokens-BoughtBy :
      {b : Bought}
      → BoughtBy info.sender purchases
      → purchase_tokens deps store ids info state purchases ≡ ok b
      → BoughtBy info.sender b.purchases
  purchase_tokens-BoughtBy {b} own h =
      let c = WhenOk-ok Calls (purchase_tokens deps store ids info state purchases) calls h in
      let l =
        WhenOk-ok _ _ (purchase_loop-Listed info.sender c.msgs c.remainder ids (cart_at c.number))
          c.looped in
      rw c.result (l.0 own)

  -- At least one token is bought, the payment is in range, and the sender's funds cover it.
  pub purchase_tokens_checks :
      {b : Bought}
      → purchase_tokens deps store ids info state purchases ≡ ok b
      → (0 < length ids)
        × (b.required_payment.amount ≤ u128_max)
        × (deps.has_coins info.funds b.required_payment ≡ true)
  purchase_tokens_checks h =
      let c = WhenOk-ok Calls (purchase_tokens deps store ids info state purchases) calls h in
      (nonempty_length ids c.nonempty, rw c.result c.fits, rw c.result c.covered)

  -- The number of tokens available was stored.
  pub purchase_tokens_stocked :
      {b : Bought}
      → purchase_tokens deps store ids info state purchases ≡ ok b
      → (number : ℕ) × (store.number_of_tokens_available ≡ some number)
  purchase_tokens_stocked h =
      let c = WhenOk-ok Calls (purchase_tokens deps store ids info state purchases) calls h in
      (c.number, c.stored)
