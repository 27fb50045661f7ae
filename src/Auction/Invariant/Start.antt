-- ===== src/Auction/Invariant/Start.antt =====
-- Starting an auction keeps the storage of the auction contract valid.
use flexible_pay_crowdfund_a.Base.{
  ℕ, ◌+◌, ◌≡◌, refl, ap, ◌∙◌, sym, subst, some, List, [], ◌∷◌, ◌++◌, arith, if◌then◌else◌,
  unwrap_or, eqb_self,
}
use flexible_pay_crowdfund_a.Chain.Result.{
  ok, WhenOk-ok, WhenOk-bind, WhenOk-self, or_err, or_err-eq-ok, not_found,
}
use flexible_pay_crowdfund_a.Chain.Uint.{u128_max, checked_add, checked_add-eq-ok}
use flexible_pay_crowdfund_a.Chain.Dict.{may_load, save, may_load-save}
use flexible_pay_crowdfund_a.Chain.Dict.Every.{save-Every}
use flexible_pay_crowdfund_a.Chain.Message.{Response}
use flexible_pay_crowdfund_a.Chain.Deps.{Deps, Env, MessageInfo}
use flexible_pay_crowdfund_a.Ado.Permissioning.{is_permissioned}
use flexible_pay_crowdfund_a.Auction.State.{
  TokenAuctionState, AuctionInfo, Store, last, push, named_info, default_info,
  get_and_increment_next_auction_id,
}
use flexible_pay_crowdfund_a.Auction.Opening.{
  send_nft_action, handle_receive_cw721, Terms, new_auction, validate_denom, validate_times,
  execute_start_auction,
}
use flexible_pay_crowdfund_a.Auction.Invariant.{
  IsValid, IsHistory, IsRecorded, Leads, save-Leads, save-IsRecorded, others-IsRecorded,
}

last-append : (xs : List ℕ) (x : ℕ) → last (xs ++ x ∷ []) ≡ some x
last-append [] x = refl
last-append (y ∷ []) x = refl
last-append (y ∷ z ∷ xs) x = last-append (z ∷ xs) x

named_info-ids :
    (i : AuctionInfo) (token_id token_address : ℕ)
    → (named_info i token_id token_address).auction_ids ≡ i.auction_ids
named_info-ids i token_id token_address = ground arith

-- What numbering an auction that succeeds has done: the counter has moved on, and the token's entry
-- ends in the number.
record Numbered (deps : Deps) (store : Store) (token_id token_address : ℕ) (out : ℕ × Store)
    : Type 0 where
  info : AuctionInfo
  counter : store.next_auction_id ≡ some out.0
  ends : last info.auction_ids ≡ some out.0
  written : out.1 ≡ record store {
    next_auction_id = some (out.0 + 1);
    auction_infos = save (deps.concat token_id token_address) info store.auction_infos;
  }

numbers :
    (deps : Deps) (store : Store) (token_id token_address : ℕ) {out : ℕ × Store}
    → get_and_increment_next_auction_id deps store token_id token_address ≡ ok out
    → Numbered deps store token_id token_address out
unfolding get_and_increment_next_auction_id
numbers deps store token_id token_address h =
    let After = Numbered deps store token_id token_address in
    let old =
      unwrap_or (may_load (deps.concat token_id token_address) store.auction_infos) default_info in
    WhenOk-ok After (get_and_increment_next_auction_id deps store token_id token_address)
      (WhenOk-bind After (or_err store.next_auction_id not_found) _ λ id found.
        WhenOk-bind After (checked_add u128_max id 1) _ λ next added. record {
          info = named_info (push old id) token_id token_address;
          counter = or_err-eq-ok store.next_auction_id not_found found;
          ends =
              ap last (named_info-ids (push old id) token_id token_address)
              ∙ last-append old.auction_ids id;
          written =
              ap
                (λ n. record store {
                  next_auction_id = some n;
                  auction_infos =
                      save (deps.concat token_id token_address)
                        (named_info (push old id) token_id token_address) store.auction_infos;
                })
                (checked_add-eq-ok u128_max id 1 added).0;
        })
      h

-- An auction without bids, added to the storage.
abbrev with_auction : ℕ → TokenAuctionState → Store → Store
with_auction id state store = record store {
  bids = save id [] store.bids;
  token_auction_state = save id state store.token_auction_state;
}

-- A new auction without bids, under the next number.
started-IsValid :
    (deps : Deps) (store : Store) (token_id token_address : ℕ) (state : TokenAuctionState)
    (numbered : ℕ × Store)
    → IsValid store
    → Numbered deps store token_id token_address numbered
    → state.auction_id ≡ numbered.0
    → IsHistory [] state
    → IsValid (with_auction numbered.0 state numbered.1)
started-IsValid deps store token_id token_address state (id, store') v n own h =
    let same : v.next ≡ id = cc (v.counter, n.counter) in
    let key = deps.concat token_id token_address in
    let states = save id state store.token_auction_state in
    subst (λ s. IsValid (with_auction id state s)) (sym n.written)
      (record {
        next = id + 1;
        counter = refl;
        recorded =
            save-Every (IsRecorded v.next store.bids) (IsRecorded (id + 1) (save id [] store.bids))
              id state store.token_auction_state
              (save-IsRecorded (id + 1) id store.bids [] state (omega arith) own h)
              (λ j differ.
                others-IsRecorded v.next (id + 1) id store.bids [] j (omega (arith, same)) differ)
              v.recorded;
        leads =
            save-Every (Leads store.token_auction_state) (Leads states) key n.info
              store.auction_infos
              (record {
                id = id;
                state = state;
                ends = n.ends;
                stored =
                    may_load-save id id state store.token_auction_state
                    ∙ ap (λ b. if b then some state else may_load id store.token_auction_state)
                        (eqb_self id);
              })
              (λ j _ w l. save-Leads id state store.token_auction_state j w l) v.leads;
      })

module _ (deps : Deps) (env : Env) (info : MessageInfo) (store : Store) (sender token_id : ℕ)
    (t : Terms) where
  -- Starting an auction keeps the storage valid.
  pub execute_start_auction-IsValid :
      {out : Store × Response}
      → IsValid store
      → execute_start_auction deps env info store sender token_id t ≡ ok out
      → IsValid out.0
  unfolding execute_start_auction
  execute_start_auction-IsValid v h =
      let After : Store × Response → Type 0 = λ out. IsValid out.0 in
      WhenOk-ok After (execute_start_auction deps env info store sender token_id t)
        (WhenOk-bind After (validate_denom deps t.coin_denom) _ λ _ _.
          WhenOk-bind After (validate_times deps env t) _ λ times _.
            WhenOk-bind After (get_and_increment_next_auction_id deps store token_id info.sender) _
              λ numbered found.
                let n = numbers deps store token_id info.sender found in
                let state = new_auction t times.0 times.1 numbered.0 sender token_id info.sender in
                started-IsValid deps store token_id info.sender state numbered v n refl
                  (record { ascending = tt; top = refl }))
        h

-- Receiving a token with the terms of its auction, from a contract that may, keeps the storage
-- valid.
pub handle_receive_cw721-IsValid :
    (deps : Deps) (env : Env) (info : MessageInfo) (store : Store) (sender token_id : ℕ) (t : Terms)
    {out : Store × Response}
    → IsValid store
    → handle_receive_cw721 deps env info store sender token_id t ≡ ok out
    → IsValid out.0
unfolding handle_receive_cw721
handle_receive_cw721-IsValid deps env info store sender token_id t v h =
    let After : Store × Response → Type 0 = λ out. IsValid out.0 in
    WhenOk-ok After (handle_receive_cw721 deps env info store sender token_id t)
      (WhenOk-bind After (is_permissioned deps store.ado env send_nft_action info.sender) _ λ ado _.
        let store' : Store = record store { ado = ado } in
        let v' : IsValid store' = record {
          next = v.next;
          counter = v.counter;
          recorded = v.recorded;
          leads = v.leads;
        } in
        WhenOk-self (execute_start_auction deps env info store' sender token_id t)
          λ out e. execute_start_auction-IsValid deps env info store' sender token_id t v' e)
      h
