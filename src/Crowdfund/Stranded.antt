-- ===== src/Crowdfund/Stranded.antt =====
-- What an empty entry does to the refunds of a later sale: `process_refund` reads the first purchase
-- of each list (contract.rs, `purchases[0]`).
use flexible_pay_crowdfund_a.Base.{
  ℕ, ◌<◌, ◌≡◌, ◌≢◌, ◌⊎◌, inl, inr, true, some, Option, List, [], ◌∷◌, map, take, ltb, arith,
}
use flexible_pay_crowdfund_a.Chain.Result.{
  ok, or_err, or_err-eq-ok, limit_must_not_be_zero, WhenOk, WhenOk-ok, WhenOk-bind, ensure,
  no_ongoing_sale, not_found, sale_not_ended,
}
use flexible_pay_crowdfund_a.Chain.Coin.{Coin}
use flexible_pay_crowdfund_a.Chain.Message.{CosmosMsg, AmpPkt, Response}
use flexible_pay_crowdfund_a.Chain.Deps.{Deps, Env, MessageInfo}
use flexible_pay_crowdfund_a.Ado.Base.{is_contract_owner}
use flexible_pay_crowdfund_a.Crowdfund.State.{Store, State, Purchase}
use flexible_pay_crowdfund_a.Crowdfund.Refund.{
  operations, process_refund, refund_loop, issue_refunds_and_burn_tokens,
}
use flexible_pay_crowdfund_a.Crowdfund.End.{may_end, execute_end_sale}

-- One of the lists is empty.
abbrev pub HasEmpty : List (List Purchase) → Type 0
HasEmpty [] = ⊥
HasEmpty (ps ∷ rest) = (ps ≡ []) ⊎ HasEmpty rest

refund_loop_not_ok :
    (price : Coin) (pss : List (List Purchase)) (store : Store) (msgs : List CosmosMsg)
    → HasEmpty pss
    → WhenOk (λ _. ⊥) (refund_loop price pss store msgs)
unfolding refund_loop process_refund
refund_loop_not_ok price [] store msgs h = absurd h
refund_loop_not_ok price ([] ∷ rest) store msgs h = tt
refund_loop_not_ok price ((p ∷ ps) ∷ rest) store msgs (inl e) = absurd (cc)
refund_loop_not_ok price ((p ∷ ps) ∷ rest) store msgs (inr h) =
    WhenOk-bind (λ _. ⊥) (process_refund store (p ∷ ps) price) _
      λ r _. refund_loop_not_ok price rest r.1 _ h

issue_refunds_not_ok :
    (deps : Deps) (env : Env) (store : Store) (limit : Option ℕ)
    → HasEmpty (take (operations limit) (map (λ e. e.1) store.purchases))
    → WhenOk (λ _. ⊥) (issue_refunds_and_burn_tokens deps env store limit)
unfolding issue_refunds_and_burn_tokens
issue_refunds_not_ok deps env store limit empty =
    let lists = take (operations limit) (map (λ e. e.1) store.purchases) in
    WhenOk-bind (λ _. ⊥) (or_err store.state not_found) _
      λ state _.
        WhenOk-bind (λ _. ⊥) (ensure (ltb 0 (operations limit)) limit_must_not_be_zero) _
          λ _ _.
            WhenOk-bind (λ _. ⊥) (refund_loop state.price lists store []) _
              λ r e. absurd (WhenOk-ok _ _ (refund_loop_not_ok state.price lists store [] empty) e)

-- Where one of the entries that a call would refund is empty, the sale that missed its minimum cannot
-- be ended: no such call of `EndSale`, by whomever and whenever, succeeds.
pub execute_end_sale_stuck :
    (deps : Deps) (env : Env) (info : MessageInfo) (pkt : Option AmpPkt) (store : Store)
    (limit : Option ℕ) {state : State} {out : Store × Response}
    → store.state ≡ some state
    → state.amount_sold < state.min_tokens_sold
    → HasEmpty (take (operations limit) (map (λ e. e.1) store.purchases))
    → execute_end_sale deps env info pkt store limit ≢ ok out
unfolding execute_end_sale
execute_end_sale_stuck deps env info pkt store limit {state} live missed empty done =
    let never =
      WhenOk-bind (λ _. ⊥) (deps.nonpayable info.funds) _
        λ _ _.
          WhenOk-bind (λ _. ⊥) (or_err store.state no_ongoing_sale) _
            λ s found.
              WhenOk-bind (λ _. ⊥) (or_err store.number_of_tokens_available not_found) _
                λ n _.
                  WhenOk-bind (λ _. ⊥) (is_contract_owner store.ado info.sender) _
                    λ is_owner _.
                      WhenOk-bind (λ _. ⊥) (ensure (may_end deps env s n is_owner) sale_not_ended) _
                        λ _ _.
                          let same : s ≡ state =
                            ground (arith, or_err-eq-ok store.state no_ongoing_sale found) in
                          let below : ltb s.amount_sold s.min_tokens_sold ≡ true =
                            rw same (ground arith) in
                          rw below (issue_refunds_not_ok deps env store limit empty) in
    WhenOk-ok (λ _. ⊥) (execute_end_sale deps env info pkt store limit) never done
