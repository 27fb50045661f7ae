-- ===== src/Auction/Reachable.antt =====
-- The calls of the auction contract as steps on its storage, and what holds after any number of them.
use flexible_pay_crowdfund_a.Base.{
  ℕ, ◌≡◌, refl, ◌==◌, ◌||◌, Bool-cases, sym, subst, Option, inl, inr,
}
use flexible_pay_crowdfund_a.Chain.Result.{
  ok, WhenOk-ok, WhenOk-bind, ensure, unauthorized, auction_not_ended, auction_already_claimed,
}
use flexible_pay_crowdfund_a.Chain.Message.{Response, add_message_to}
use flexible_pay_crowdfund_a.Chain.Deps.{Deps, Env, MessageInfo, Expiration, empty_text}
use flexible_pay_crowdfund_a.Ado.Base.{Ado, is_contract_owner}
use flexible_pay_crowdfund_a.Auction.State.{Store, get_existing_token_auction_state}
use flexible_pay_crowdfund_a.Auction.Handlers.{
  execute_place_bid, execute_cancel, execute_claim, purchase_token, pay_owner, nft_msg,
}
use flexible_pay_crowdfund_a.Auction.Opening.{
  Terms, handle_receive_cw721, execute_update_auction, execute_authorize_token_contract,
  execute_deauthorize_token_contract,
}
use flexible_pay_crowdfund_a.Auction.Invariant.{IsValid, initial, initial-IsValid}
use flexible_pay_crowdfund_a.Auction.Invariant.Handlers.{
  execute_place_bid-IsValid, execute_cancel-IsValid,
}
use flexible_pay_crowdfund_a.Auction.Invariant.Terms.{execute_update_auction-IsValid}
use flexible_pay_crowdfund_a.Auction.Invariant.Start.{handle_receive_cw721-IsValid}

-- A successful call of one of the handlers, in any environment and from anyone. What the base of
-- every contract writes is the step `base`.
pub data Step : Store → Store → Type 0 where
  received :
      (deps : Deps) (env : Env) (info : MessageInfo) (store : Store) (sender token_id : ℕ)
      (t : Terms) {out : Store × Response}
      → handle_receive_cw721 deps env info store sender token_id t ≡ ok out
      → Step store out.0
  updated :
      (deps : Deps) (env : Env) (info : MessageInfo) (store : Store) (token_id token_address : ℕ)
      (t : Terms) {out : Store × Response}
      → execute_update_auction deps env info store token_id token_address t ≡ ok out
      → Step store out.0
  bid :
      (deps : Deps) (env : Env) (info : MessageInfo) (store : Store) (token_id token_address : ℕ)
      {out : Store × Response}
      → execute_place_bid deps env info store token_id token_address ≡ ok out
      → Step store out.0
  cancelled :
      (deps : Deps) (env : Env) (info : MessageInfo) (store : Store) (token_id token_address : ℕ)
      {out : Store × Response}
      → execute_cancel deps env info store token_id token_address ≡ ok out
      → Step store out.0
  claimed :
      (deps : Deps) (env : Env) (info : MessageInfo) (store : Store) (token_id token_address : ℕ)
      {out : Store × Response}
      → execute_claim deps env info store token_id token_address ≡ ok out
      → Step store out.0
  authorized :
      (deps : Deps) (info : MessageInfo) (store : Store) (token_address : ℕ) (e : Option Expiration)
      {out : Store × Response}
      → execute_authorize_token_contract deps info store token_address e ≡ ok out
      → Step store out.0
  deauthorized :
      (deps : Deps) (info : MessageInfo) (store : Store) (token_address : ℕ)
      {out : Store × Response}
      → execute_deauthorize_token_contract deps info store token_address ≡ ok out
      → Step store out.0
  base : (store : Store) (ado : Ado) → Step store (record store { ado = ado })

-- The storages that calls lead to from an instantiated contract.
pub data Reachable : Store → Type 0 where
  instantiated : (ado : Ado) → Reachable (initial ado)
  next : {store after : Store} → Reachable store → Step store after → Reachable after

other_ado : (store : Store) (ado : Ado) → IsValid store → IsValid (record store { ado = ado })
other_ado store ado v = record {
  next = v.next;
  counter = v.counter;
  recorded = v.recorded;
  leads = v.leads;
}

-- A claim writes nothing.
execute_claim-kept :
    (deps : Deps) (env : Env) (info : MessageInfo) (store : Store) (token_id token_address : ℕ)
    {out : Store × Response}
    → execute_claim deps env info store token_id token_address ≡ ok out
    → out.0 ≡ store
unfolding execute_claim
execute_claim-kept deps env info store token_id token_address h =
    let After : Store × Response → Type 0 = λ out. out.0 ≡ store in
    WhenOk-ok After (execute_claim deps env info store token_id token_address)
      (WhenOk-bind After (deps.nonpayable info.funds) _ λ _ _.
        WhenOk-bind After (get_existing_token_auction_state deps store token_id token_address) _
          λ state _.
            WhenOk-bind After (ensure (deps.is_expired state.end_time env.block) auction_not_ended)
              _
              λ _ _.
                WhenOk-bind After (deps.owner_of state.token_address token_id) _ λ token_owner _.
                  WhenOk-bind After
                    (ensure (token_owner == env.contract_address) auction_already_claimed) _
                    λ _ _.
                      elim (Bool-cases
                        (state.high_bidder_addr == empty_text || state.high_bidder_amount == 0)) [
                          | inl unsold ↦ rw unsold refl
                          | inr sold ↦ rw sold (
                              WhenOk-bind After (purchase_token deps info store state) _ λ bought _.
                                WhenOk-bind After
                                  (pay_owner deps state bought.0 (
                                    add_message_to bought.1
                                      (nft_msg state token_id state.high_bidder_addr)))
                                  _ λ resp _. refl)
                        ])
      h

-- Letting a token contract in, or no longer, writes to the base alone.
execute_authorize_token_contract-kept :
    (deps : Deps) (info : MessageInfo) (store : Store) (token_address : ℕ) (e : Option Expiration)
    {out : Store × Response}
    → execute_authorize_token_contract deps info store token_address e ≡ ok out
    → out.0 ≡ record store { ado = out.0.ado }
unfolding execute_authorize_token_contract
execute_authorize_token_contract-kept deps info store token_address e h =
    let After : Store × Response → Type 0 = λ out. out.0 ≡ record store { ado = out.0.ado } in
    WhenOk-ok After (execute_authorize_token_contract deps info store token_address e)
      (WhenOk-bind After (deps.get_raw_address token_address) _ λ addr _.
        WhenOk-bind After (is_contract_owner store.ado info.sender) _
          λ is_owner _. WhenOk-bind After (ensure is_owner unauthorized) _ λ _ _. refl)
      h

execute_deauthorize_token_contract-kept :
    (deps : Deps) (info : MessageInfo) (store : Store) (token_address : ℕ) {out : Store × Response}
    → execute_deauthorize_token_contract deps info store token_address ≡ ok out
    → out.0 ≡ record store { ado = out.0.ado }
unfolding execute_deauthorize_token_contract
execute_deauthorize_token_contract-kept deps info store token_address h =
    let After : Store × Response → Type 0 = λ out. out.0 ≡ record store { ado = out.0.ado } in
    WhenOk-ok After (execute_deauthorize_token_contract deps info store token_address)
      (WhenOk-bind After (deps.get_raw_address token_address) _ λ addr _.
        WhenOk-bind After (is_contract_owner store.ado info.sender) _
          λ is_owner _. WhenOk-bind After (ensure is_owner unauthorized) _ λ _ _. refl)
      h

Step-IsValid : {before after : Store} → Step before after → IsValid before → IsValid after
Step-IsValid (received deps env info store sender token_id t h) v =
    handle_receive_cw721-IsValid deps env info store sender token_id t v h
Step-IsValid (updated deps env info store token_id token_address t h) v =
    execute_update_auction-IsValid deps env info store token_id token_address t v h
Step-IsValid (bid deps env info store token_id token_address h) v =
    execute_place_bid-IsValid deps env info store token_id token_address v h
Step-IsValid (cancelled deps env info store token_id token_address h) v =
    execute_cancel-IsValid deps env info store token_id token_address v h
Step-IsValid (claimed deps env info store token_id token_address h) v =
    subst IsValid (sym (execute_claim-kept deps env info store token_id token_address h)) v
Step-IsValid (authorized deps info store token_address e h) v =
    subst IsValid (sym (execute_authorize_token_contract-kept deps info store token_address e h))
      (other_ado store _ v)
Step-IsValid (deauthorized deps info store token_address h) v =
    subst IsValid (sym (execute_deauthorize_token_contract-kept deps info store token_address h))
      (other_ado store _ v)
Step-IsValid (base store ado) v = other_ado store ado v

-- Whatever calls have been made, the storage is valid: every auction stands under its own id, below
-- the counter, with a record of strictly growing bids whose last is its highest bid, and every
-- token's entry ends in a stored auction.
pub Reachable-IsValid : {store : Store} → Reachable store → IsValid store
Reachable-IsValid (instantiated ado) = initial-IsValid ado
Reachable-IsValid (next r s) = Step-IsValid s (Reachable-IsValid r)
