-- ===== src/Crowdfund/Invariant/Starting.antt =====
-- Starting a sale: the handler's terms, and the invariant.
use flexible_pay_crowdfund_a.Base.{
  ℕ, ◌≤◌, ◌≡◌, ◌∙◌, sym, refl, ap, subst, true, Option, none, some, [], ◌∷◌, length, unwrap_or,
  arith,
}
use flexible_pay_crowdfund_a.Chain.Result.{
  ok, WhenOk, WhenOk-ok, WhenOk-bind, ensure, ensure-eq-ok, unauthorized, start_time_after_end_time,
  sale_started,
}
use flexible_pay_crowdfund_a.Chain.Uint.{u32_max}
use flexible_pay_crowdfund_a.Chain.Message.{Response}
use flexible_pay_crowdfund_a.Chain.Deps.{Expiration, Deps, Env, MessageInfo}
use flexible_pay_crowdfund_a.Chain.Time.{get_and_validate_start_time, expiration_from_milliseconds}
use flexible_pay_crowdfund_a.Ado.Base.{is_contract_owner}
use flexible_pay_crowdfund_a.Ado.Recipient
use flexible_pay_crowdfund_a.Crowdfund.State.{Store, State}
use flexible_pay_crowdfund_a.Crowdfund.Mint.{is_none}
use flexible_pay_crowdfund_a.Crowdfund.Sale.{StartSale, execute_start_sale}
use flexible_pay_crowdfund_a.Crowdfund.Transfer.{flat}
use flexible_pay_crowdfund_a.Crowdfund.Invariant.{IsValid, IsBalanced}
use flexible_pay_crowdfund_a.Crowdfund.Invariant.Lists.{empty-AllWithin}

-- What a started sale is like; while it is stored, no other can be started.
pub record Started (deps : Deps) (env : Env) (info : MessageInfo) (store : Store) (msg : StartSale)
    (out : Store × Response) : Type 0 where
  pub sale : State
  pub idle : store.state ≡ none
  pub by_owner : is_contract_owner store.ado info.sender ≡ ok true
  pub start : Expiration × ℕ
  pub starts_at : get_and_validate_start_time deps env msg.start_time ≡ ok start
  pub in_order : deps.later sale.end_time start.0 ≡ true
  pub ends : expiration_from_milliseconds msg.end_time ≡ ok sale.end_time
  pub written : out.0 ≡ record store { state = some sale; sale_conducted = some true }
  pub nothing_sold :
      (sale.amount_sold ≡ 0) × (sale.amount_transferred ≡ 0) × (sale.amount_to_send ≡ 0)
  pub wallet_limit : sale.max_amount_per_wallet ≡ unwrap_or msg.max_amount_per_wallet 1
  pub recipient : sale.recipient ≡ msg.recipient
  pub once :
      (after : Env) (who : MessageInfo) (other : StartSale)
      → WhenOk (λ r. ⊥) (execute_start_sale deps after who out.0 other)
  pub terms : (sale.price ≡ msg.price) × (sale.min_tokens_sold ≡ msg.min_tokens_sold)

is_none-eq : {A : Type 0} (o : Option A) → is_none o ≡ true → o ≡ none
is_none-eq none h = refl
is_none-eq (some a) h = cc

module _ (deps : Deps) (store : Store) (s : State) (stored : store.state ≡ some s) (env : Env)
    (info : MessageInfo) (msg : StartSale) where
  -- No sale can be started while one is stored.
  only_one : WhenOk (λ r. ⊥) (execute_start_sale deps env info store msg)
  unfolding execute_start_sale
  only_one =
      let Never : Store × Response → Type 0 = λ r. ⊥ in
      WhenOk-bind Never (Recipient.validate deps msg.recipient) _ λ _ _.
        WhenOk-bind Never (deps.nonpayable info.funds) _ λ _ _.
          WhenOk-bind Never (deps.validate_andr_addresses (msg.recipient.address ∷ [])) _ λ _ _.
            WhenOk-bind Never (is_contract_owner store.ado info.sender) _ λ is_owner _.
              WhenOk-bind Never (ensure is_owner unauthorized) _ λ _ _.
                WhenOk-bind Never (get_and_validate_start_time deps env msg.start_time) _ λ start _.
                  WhenOk-bind Never (expiration_from_milliseconds msg.end_time) _ λ end _.
                    WhenOk-bind Never (ensure (deps.later end start.0) start_time_after_end_time) _
                      λ _ _.
                        WhenOk-bind Never (ensure (is_none store.state) sale_started) _ λ _ idle.
                          let none_stored =
                            is_none-eq store.state (ensure-eq-ok _ sale_started idle) in
                          let clash : some s ≡ none = sym stored ∙ none_stored in cc clash

module _ (deps : Deps) (env : Env) (info : MessageInfo) (store : Store) (msg : StartSale) where
  starts : WhenOk (Started deps env info store msg) (execute_start_sale deps env info store msg)
  unfolding execute_start_sale
  starts =
      let After = Started deps env info store msg in
      WhenOk-bind After (Recipient.validate deps msg.recipient) _ λ _ _.
        WhenOk-bind After (deps.nonpayable info.funds) _ λ _ _.
          WhenOk-bind After (deps.validate_andr_addresses (msg.recipient.address ∷ [])) _ λ _ _.
            WhenOk-bind After (is_contract_owner store.ado info.sender) _ λ is_owner owner.
              WhenOk-bind After (ensure is_owner unauthorized) _ λ _ is_true.
                WhenOk-bind After (get_and_validate_start_time deps env msg.start_time) _
                  λ start starts_at.
                    WhenOk-bind After (expiration_from_milliseconds msg.end_time) _ λ end ends.
                      WhenOk-bind After (ensure (deps.later end start.0) start_time_after_end_time)
                        _
                        λ _ in_order.
                          WhenOk-bind After (ensure (is_none store.state) sale_started) _ λ _ idle.
                            let sale : State = record {
                              end_time = end;
                              price = msg.price;
                              min_tokens_sold = msg.min_tokens_sold;
                              max_amount_per_wallet = unwrap_or msg.max_amount_per_wallet 1;
                              amount_sold = 0;
                              amount_to_send = 0;
                              amount_transferred = 0;
                              recipient = msg.recipient;
                            } in
                            let stored : Store = record store {
                              state = some sale;
                              sale_conducted = some true;
                            } in
                            record {
                              sale = sale;
                              idle = is_none-eq store.state (ensure-eq-ok _ sale_started idle);
                              by_owner = owner ∙ ap ok (ensure-eq-ok _ unauthorized is_true);
                              ends = ends;
                              start = start;
                              starts_at = starts_at;
                              in_order = ensure-eq-ok _ start_time_after_end_time in_order;
                              written = refl;
                              recipient = refl;
                              once = only_one deps stored sale refl;
                              nothing_sold = (refl, refl, refl);
                              wallet_limit = refl;
                              terms = (refl, refl);
                            }

  pub execute_start_sale-Started :
      {out : Store × Response}
      → execute_start_sale deps env info store msg ≡ ok out
      → Started deps env info store msg out
  execute_start_sale-Started h =
      WhenOk-ok (Started deps env info store msg) (execute_start_sale deps env info store msg)
        starts h

  -- Starting a sale whose wallet limit is a `u32` keeps the invariant.
  pub execute_start_sale-IsValid :
      {out : Store × Response}
      → IsValid store
      → unwrap_or msg.max_amount_per_wallet 1 ≤ u32_max
      → execute_start_sale deps env info store msg ≡ ok out
      → IsValid out.0
  execute_start_sale-IsValid v word h =
      let s = execute_start_sale-Started h in
      let (sold, transferred, _) = s.nothing_sold in
      let none_left : length (flat store.purchases) ≡ 0 =
        subst (λ o. IsBalanced o (length (flat store.purchases))) s.idle v.balanced in
      rw s.written (record {
        sorted = v.sorted;
        owned = v.owned;
        stock = v.stock;
        balanced = omega arith;
        limited = (
          omega (arith, s.wallet_limit),
          empty-AllWithin s.sale.max_amount_per_wallet store.purchases none_left,
        );
      })
