-- ===== src/Crowdfund/Sale/Loop.antt =====
-- What the loop of `purchase_tokens` does to its variables, round by round.
use flexible_pay_crowdfund_a.Base.{
  ℕ, ◌+◌, ◌*◌, suc, ◌≡◌, ◌∙◌, ap, subst, refl, inl, inr, List, [], ◌∷◌, arith, length,
  length-append,
}
use flexible_pay_crowdfund_a.Chain.Result.{
  WhenOk, WhenOk-ok, WhenOk-mono, WhenOk-bind, Result-cases,
}
use flexible_pay_crowdfund_a.Chain.Coin.{Funds, native, cw20, try_get_coin}
use flexible_pay_crowdfund_a.Chain.Message.{SubMsg}
use flexible_pay_crowdfund_a.Ado.Rates.{get_tax_amount, get_tax_amount-balances, total_sent}
use flexible_pay_crowdfund_a.Crowdfund.Refund.{remove_all}
use flexible_pay_crowdfund_a.Crowdfund.Paid.{paid, paid-append, BoughtBy, BoughtBy-append}
use flexible_pay_crowdfund_a.Crowdfund.Sale.{Cart, new_purchase, purchase_token, purchase_loop}

abbrev pub left_of : Funds → ℕ
left_of (native c) = c.amount
left_of (cw20 c) = 0

-- After `n` more tokens, `c` has become `d`.
pub record Rounds (msgs : List SubMsg) (remainder : Funds) (n : ℕ) (c d : Cart) : Type 0 where
  pub sold : d.sale.amount_sold ≡ c.sale.amount_sold + n
  pub listed : length d.purchases ≡ length c.purchases + n
  pub counted : d.current_number + n ≡ c.current_number
  pub to_send : d.sale.amount_to_send ≡ c.sale.amount_to_send + n * left_of remainder
  pub owed :
      paid c.sale.price.amount d.purchases + c.total_tax_amount
      ≡ paid c.sale.price.amount c.purchases + d.total_tax_amount + n * c.sale.price.amount
  pub spent :
      d.total_tax_amount + n * c.sale.price.amount
      ≡ c.total_tax_amount + n * (left_of remainder + total_sent msgs)
  pub same_price : d.sale.price ≡ c.sale.price
  pub same_min : d.sale.min_tokens_sold ≡ c.sale.min_tokens_sold
  pub same_max : d.sale.max_amount_per_wallet ≡ c.sale.max_amount_per_wallet
  pub same_end : d.sale.end_time ≡ c.sale.end_time
  pub same_transferred : d.sale.amount_transferred ≡ c.sale.amount_transferred

purchase_token-Rounds :
    (buyer : ℕ) (msgs : List SubMsg) (remainder : Funds) (t : ℕ) (c : Cart)
    → WhenOk (Rounds msgs remainder 1 c) (purchase_token buyer msgs remainder t c)
unfolding purchase_token try_get_coin
purchase_token-Rounds buyer msgs (native coin) t c =
    elim (Result-cases (get_tax_amount msgs c.sale.price.amount coin.amount)) [
      | inl (tax, e) ↦
          let new = new_purchase buyer msgs t tax in
          rw e (
            ground (
              arith,
              get_tax_amount-balances msgs c.sale.price.amount coin.amount e,
              length-append c.purchases (new ∷ []),
              paid-append c.sale.price.amount c.purchases (new ∷ []),
            ))
      | inr (inl (_, e)) ↦ rw e tt
      | inr (inr e) ↦ rw e tt
    ]
purchase_token-Rounds buyer msgs (cw20 coin) t c = tt

Rounds-trans :
    {msgs : List SubMsg} {remainder : Funds} {n : ℕ} {c d e : Cart}
    → Rounds msgs remainder 1 c d
    → Rounds msgs remainder n d e
    → Rounds msgs remainder (suc n) c e
Rounds-trans {msgs} {remainder = r} {n} {c} {d} {e} h k =
    let same : d.sale.price.amount ≡ c.sale.price.amount = ap (λ p. p.amount) h.same_price in
    let (owed, spent) =
      subst
        (λ x.
          (paid x e.purchases + d.total_tax_amount
            ≡ paid x d.purchases + e.total_tax_amount + n * x)
          × (e.total_tax_amount + n * x ≡ d.total_tax_amount + n * (left_of r + total_sent msgs)))
        same (k.owed, k.spent) in
    record {
      sold = omega arith;
      listed = omega arith;
      counted = omega arith;
      to_send = omega arith;
      owed = omega arith;
      spent = omega arith;
      same_price = k.same_price ∙ h.same_price;
      same_min = omega arith;
      same_max = omega arith;
      same_end = k.same_end ∙ h.same_end;
      same_transferred = omega arith;
    }

pub purchase_loop-Rounds :
    (buyer : ℕ) (msgs : List SubMsg) (remainder : Funds) (ts : List ℕ) (c : Cart)
    → WhenOk (Rounds msgs remainder (length ts) c) (purchase_loop buyer msgs remainder ts c)
unfolding purchase_loop
purchase_loop-Rounds buyer msgs remainder [] c = ground arith
purchase_loop-Rounds buyer msgs remainder (t ∷ ts) c =
    let After : Cart → Type 0 = Rounds msgs remainder (suc (length ts)) c in
    WhenOk-bind After (purchase_token buyer msgs remainder t c) _ λ d e.
      WhenOk-mono (Rounds msgs remainder (length ts) d) After
        (λ _ k. Rounds-trans (WhenOk-ok _ _ (purchase_token-Rounds buyer msgs remainder t c) e) k)
        (purchase_loop buyer msgs remainder ts d) (purchase_loop-Rounds buyer msgs remainder ts d)

-- What the loop does to the lists: the buyer's stays the buyer's, and each token leaves the set of
-- those available.
abbrev pub Listed : ℕ → List ℕ → Cart → Cart → Type 0
Listed buyer ts c d =
    (BoughtBy buyer c.purchases → BoughtBy buyer d.purchases)
    × (d.available_tokens ≡ remove_all ts c.available_tokens)

purchase_token-Listed :
    (buyer : ℕ) (msgs : List SubMsg) (remainder : Funds) (t : ℕ) (c : Cart)
    → WhenOk (Listed buyer (t ∷ []) c) (purchase_token buyer msgs remainder t c)
unfolding purchase_token try_get_coin
purchase_token-Listed buyer msgs (native coin) t c =
    elim (Result-cases (get_tax_amount msgs c.sale.price.amount coin.amount)) [
      | inl (tax, e) ↦
          let new = new_purchase buyer msgs t tax ∷ [] in
          let keep = λ (h : BoughtBy buyer c.purchases).
            BoughtBy-append buyer c.purchases new h (refl, tt) in
          rw e (ground (arith, keep))
      | inr (inl (_, e)) ↦ rw e tt
      | inr (inr e) ↦ rw e tt
    ]
purchase_token-Listed buyer msgs (cw20 coin) t c = tt

pub purchase_loop-Listed :
    (buyer : ℕ) (msgs : List SubMsg) (remainder : Funds) (ts : List ℕ) (c : Cart)
    → WhenOk (Listed buyer ts c) (purchase_loop buyer msgs remainder ts c)
unfolding purchase_loop
purchase_loop-Listed buyer msgs remainder [] c = (λ h. h, refl)
purchase_loop-Listed buyer msgs remainder (t ∷ ts) c =
    let After : Cart → Type 0 = Listed buyer (t ∷ ts) c in
    WhenOk-bind After (purchase_token buyer msgs remainder t c) _ λ d e.
      let first = WhenOk-ok _ _ (purchase_token-Listed buyer msgs remainder t c) e in
      WhenOk-mono (Listed buyer ts d) After
        (λ a k. (λ h. k.0 (first.0 h), k.1 ∙ ap (remove_all ts) first.1))
        (purchase_loop buyer msgs remainder ts d) (purchase_loop-Listed buyer msgs remainder ts d)
