-- ===== src/Auction/Bidding.antt =====
-- What a bid of the auction contract does: `execute_place_bid` of
-- contracts/non-fungible-tokens/andromeda-auction/src/contract.rs.
pub mod Refunds
use flexible_pay_crowdfund_a.Base.{
  ℕ, not-true, ◌<◌, ◌≤◌, ◌≡◌, ◌≢◌, refl, ap, ◌∙◌, sym, true, false, not, ◌&&◌, none, some, List, [],
  ◌∷◌, ◌++◌, arith, ltb, leb, ◌==◌, unwrap_or, if◌then◌else◌, inl, inr, eqb_self, Option,
}
use flexible_pay_crowdfund_a.Chain.Result.{
  Result, ok, ◌>>=◌, WhenOk, WhenOk-ok, WhenOk-bind, ensure, ensure-eq-ok, or_err, or_err-eq-ok,
  not_found, auction_cancelled, auction_not_started, auction_ended, token_owner_cannot_bid,
  unauthorized, highest_bidder_cannot_out_bid, invalid_funds, bid_smaller_than_highest_bid,
  ok_injective,
}
use flexible_pay_crowdfund_a.Chain.Coin.{Coin, single_coin}
use flexible_pay_crowdfund_a.Chain.Dict.{may_load, save, may_load-save}
use flexible_pay_crowdfund_a.Chain.Message.{Response, add_messages}
use flexible_pay_crowdfund_a.Chain.Deps.{Deps, Env, MessageInfo}
use flexible_pay_crowdfund_a.Auction.State.{
  TokenAuctionState, Bid, Store, get_existing_token_auction_state, latest_auction_id,
}
use flexible_pay_crowdfund_a.Auction.Handlers.{
  check_bid, is_listed, refund_high_bid, new_bid, execute_place_bid,
}

-- A bid that passes the checks is one coin of the auction's denomination, above the highest bid and
-- not under the minimum, on an auction that has started, has not ended and is not cancelled, from
-- someone on the list who is neither the owner nor the highest bidder.
pub record Passes (deps : Deps) (env : Env) (info : MessageInfo) (state : TokenAuctionState)
    (payment : Coin) : Type 0 where
  pub one_coin : single_coin info.funds ≡ ok payment
  pub denom : payment.denom ≡ state.coin_denom
  pub positive : 0 < payment.amount
  pub above : state.high_bidder_amount < payment.amount
  pub minimum : unwrap_or state.min_bid 0 ≤ payment.amount
  pub live : state.is_cancelled ≡ false
  pub started : deps.is_expired state.start_time env.block ≡ true
  pub not_ended : deps.is_expired state.end_time env.block ≡ false
  pub not_owner : (state.owner == info.sender) ≡ false
  pub listed : is_listed info.sender state.whitelist ≡ true
  pub other_bidder : (state.high_bidder_addr == info.sender) ≡ false

both_hold : (a b c : ℕ) → (a == b && ltb 0 c) ≡ true → (a ≡ b) × (0 < c)
both_hold a b c h = ground arith

leb_holds : (a b : ℕ) → leb a b ≡ true → a ≤ b
leb_holds a b h = ground arith

ltb_holds : (a b : ℕ) → ltb a b ≡ true → a < b
ltb_holds a b h = ground arith

module _ (deps : Deps) (env : Env) (info : MessageInfo) where
  pub check_bid-Passes :
      (state : TokenAuctionState) {payment : Coin}
      → check_bid deps env info state ≡ ok payment
      → Passes deps env info state payment
  unfolding check_bid
  check_bid-Passes state h =
      let After = Passes deps env info state in
      WhenOk-ok After (check_bid deps env info state)
        (WhenOk-bind After (ensure (not state.is_cancelled) auction_cancelled) _ λ _ live.
          WhenOk-bind After
            (ensure (deps.is_expired state.start_time env.block) auction_not_started) _
            λ _ started.
              WhenOk-bind After
                (ensure (not (deps.is_expired state.end_time env.block)) auction_ended) _
                λ _ going.
                  WhenOk-bind After
                    (ensure (not (state.owner == info.sender)) token_owner_cannot_bid) _
                    λ _ not_owner. WhenOk-bind After (single_coin info.funds) _ λ payment one_coin.
                      WhenOk-bind After
                        (ensure (is_listed info.sender state.whitelist) unauthorized) _
                        λ _ listed.
                          WhenOk-bind After
                            (ensure (not (state.high_bidder_addr == info.sender))
                              highest_bidder_cannot_out_bid)
                            _
                            λ _ other.
                              WhenOk-bind After
                                (ensure (payment.denom == state.coin_denom && ltb 0 payment.amount)
                                  invalid_funds)
                                _
                                λ _ pays.
                                  WhenOk-bind After
                                    (ensure (leb (unwrap_or state.min_bid 0) payment.amount)
                                      invalid_funds)
                                    _
                                    λ _ enough.
                                      WhenOk-bind After
                                        (ensure (ltb state.high_bidder_amount payment.amount)
                                          bid_smaller_than_highest_bid)
                                        _
                                        λ _ above.
                                          let (denom, positive) =
                                            both_hold payment.denom state.coin_denom payment.amount
                                              (ensure-eq-ok _ invalid_funds pays) in
                                          record {
                                            one_coin = one_coin;
                                            denom = denom;
                                            positive = positive;
                                            above =
                                                ltb_holds _ _ (
                                                  ensure-eq-ok _ bid_smaller_than_highest_bid
                                                    above);
                                            minimum =
                                                leb_holds _ _ (ensure-eq-ok _ invalid_funds enough);
                                            live =
                                                not-true _ (ensure-eq-ok _ auction_cancelled live);
                                            started = ensure-eq-ok _ auction_not_started started;
                                            not_ended =
                                                not-true _ (ensure-eq-ok _ auction_ended going);
                                            not_owner =
                                                not-true _
                                                  (ensure-eq-ok _ token_owner_cannot_bid not_owner);
                                            listed = ensure-eq-ok _ unauthorized listed;
                                            other_bidder = not-true _ (
                                                ensure-eq-ok _ highest_bidder_cannot_out_bid other);
                                          })
        h

-- The auction after a bid.
abbrev pub with_bid : MessageInfo → Coin → TokenAuctionState → TokenAuctionState
with_bid info payment state = record state {
  high_bidder_addr = info.sender;
  high_bidder_amount = payment.amount;
}

module _ (deps : Deps) (token_id token_address : ℕ) where
  -- The auction that a token's entry leads to, under its own id.
  pub record IsCurrent (store : Store) (state : TokenAuctionState) : Type 0 where
    pub latest :
        latest_auction_id (may_load (deps.concat token_id token_address) store.auction_infos)
        ≡ ok state.auction_id
    pub stored : may_load state.auction_id store.token_auction_state ≡ some state

  pub IsCurrent-get_existing :
      (store : Store) (state : TokenAuctionState)
      → IsCurrent store state
      → get_existing_token_auction_state deps store token_id token_address ≡ ok state
  unfolding get_existing_token_auction_state
  IsCurrent-get_existing store state c =
      rw (c.latest, c.stored, get_existing_token_auction_state) refl

  -- The current auction, written back.
  pub saved-IsCurrent :
      (store out : Store) (state next : TokenAuctionState)
      → IsCurrent store state
      → next.auction_id ≡ state.auction_id
      → out.auction_infos ≡ store.auction_infos
      → out.token_auction_state ≡ save state.auction_id next store.token_auction_state
      → IsCurrent out next
  saved-IsCurrent store out state next c id infos states = record {
    latest =
        ap (λ d. latest_auction_id (may_load (deps.concat token_id token_address) d)) infos
        ∙ c.latest
        ∙ ap ok (sym id);
    stored =
        (λ i. may_load (id i) (states i))
        ∙ may_load-save state.auction_id state.auction_id next store.token_auction_state
        ∙ ap (λ b. if b then some next else may_load state.auction_id store.token_auction_state)
            (eqb_self state.auction_id);
  }

  -- What a bid that succeeds has done.
  pub record Placed (env : Env) (info : MessageInfo) (store : Store) (out : Store × Response)
      : Type 0 where
    pub before : TokenAuctionState
    pub payment : Coin
    pub bids : List Bid
    pub current : get_existing_token_auction_state deps store token_id token_address ≡ ok before
    pub passes : Passes deps env info before payment
    pub bid_on : may_load before.auction_id store.bids ≡ some bids
    pub written : out.0 ≡ record store {
      token_auction_state =
          save before.auction_id (with_bid info payment before) store.token_auction_state;
      bids = save before.auction_id (bids ++ new_bid env info payment ∷ []) store.bids;
    }
    pub refunded : out.1 ≡ add_messages [] (refund_high_bid before)

  pub execute_place_bid-Placed :
      (env : Env) (info : MessageInfo) (store : Store) {out : Store × Response}
      → execute_place_bid deps env info store token_id token_address ≡ ok out
      → Placed env info store out
  unfolding execute_place_bid
  execute_place_bid-Placed env info store {out} h =
      let After = Placed env info store in
      WhenOk-ok After (execute_place_bid deps env info store token_id token_address)
        (WhenOk-bind After (get_existing_token_auction_state deps store token_id token_address) _
          λ state current. WhenOk-bind After (check_bid deps env info state) _ λ payment checked.
            WhenOk-bind After (or_err (may_load state.auction_id store.bids) not_found) _
              λ bids found. record {
                before = state;
                payment = payment;
                bids = bids;
                current = current;
                passes = check_bid-Passes deps env info state checked;
                bid_on = or_err-eq-ok (may_load state.auction_id store.bids) not_found found;
                written = refl;
                refunded = refl;
              })
        h
