-- ===== src/Auction/Invariant/Handlers.antt =====
-- The handlers of the auction contract keep its storage valid.
use flexible_pay_crowdfund_a.Base.{
  ℕ, not-true, ◌<◌, ◌≡◌, refl, ap, ◌∙◌, sym, subst, true, false, not, [], ◌∷◌, ◌++◌, arith, ◌==◌,
  eqb→eq,
}
use flexible_pay_crowdfund_a.Chain.Result.{
  ok, WhenOk-ok, WhenOk-bind, ensure, ensure-eq-ok, unauthorized, auction_ended,
}
use flexible_pay_crowdfund_a.Chain.Dict.{save}
use flexible_pay_crowdfund_a.Chain.Dict.Every.{save-Every}
use flexible_pay_crowdfund_a.Chain.Message.{Response, add_messages}
use flexible_pay_crowdfund_a.Chain.Deps.{Deps, Env, MessageInfo}
use flexible_pay_crowdfund_a.Auction.State.{
  TokenAuctionState, Bid, Store, get_existing_token_auction_state,
}
use flexible_pay_crowdfund_a.Auction.Handlers.{
  new_bid, execute_place_bid, execute_cancel, nft_msg, refund_high_bid,
}
use flexible_pay_crowdfund_a.Auction.Bidding.{execute_place_bid-Placed, with_bid}
use flexible_pay_crowdfund_a.Auction.Invariant.{
  IsValid, IsHistory, IsRecorded, save-AllLead, save-IsRecorded, others-IsRecorded, Found,
  get_existing-Found, highest-append, Ascending-append,
}

-- A recorded auction can be written back with the same highest bid.
pub rewritten-IsValid :
    (deps : Deps) (token_id token_address : ℕ) (store out : Store) (v : IsValid store)
    (before after : TokenAuctionState)
    → Found deps token_id token_address store v.next before
    → after.auction_id ≡ before.auction_id
    → after.high_bidder_addr ≡ before.high_bidder_addr
    → after.high_bidder_amount ≡ before.high_bidder_amount
    → out ≡ record store {
      token_auction_state = save before.auction_id after store.token_auction_state;
    }
    → IsValid out
rewritten-IsValid deps token_id token_address store out v before after f id addr amount e =
    let r = f.recorded in
    let past = r.is_history in
    subst IsValid (sym e) (record {
      next = v.next;
      counter = v.counter;
      recorded =
          save-Every (IsRecorded v.next store.bids) (IsRecorded v.next store.bids) before.auction_id
            after store.token_auction_state
            (record {
              own_id = id;
              counted = r.counted;
              history = r.history;
              on_record = r.on_record;
              is_history = record {
                ascending = past.ascending;
                top = past.top ∙ λ i. (sym addr i, sym amount i);
              };
            })
            (λ j _ w h. h) v.recorded;
      leads =
          save-AllLead before.auction_id after store.token_auction_state store.auction_infos
            v.leads;
    })

pub execute_place_bid-IsValid :
    (deps : Deps) (env : Env) (info : MessageInfo) (store : Store) (token_id token_address : ℕ)
    {out : Store × Response}
    → IsValid store
    → execute_place_bid deps env info store token_id token_address ≡ ok out
    → IsValid out.0
execute_place_bid-IsValid deps env info store token_id token_address {out} v h =
    let p = execute_place_bid-Placed deps token_id token_address env info store h in
    let f = get_existing-Found deps token_id token_address store v p.current in
    let r = f.recorded in
    let past = r.is_history in
    let same : r.history ≡ p.bids = cc (r.on_record, p.bid_on) in
    let id = p.before.auction_id in
    let b : Bid = new_bid env info p.payment in
    let after : TokenAuctionState = with_bid info p.payment p.before in
    let history : IsHistory (r.history ++ b ∷ []) after = record {
      ascending =
          Ascending-append 0 _ r.history b refl past.ascending
            (subst (λ n. n < p.payment.amount) (sym (ap (λ t. t.1) past.top)) p.passes.above);
      top = highest-append _ r.history b;
    } in
    let bids = p.bids ++ b ∷ [] in
    subst IsValid (sym p.written) (record {
      next = v.next;
      counter = v.counter;
      recorded =
          save-Every (IsRecorded v.next store.bids) (IsRecorded v.next (save id bids store.bids)) id
            after store.token_auction_state
            (save-IsRecorded v.next id store.bids bids after r.counted refl
              (subst (λ bs. IsHistory (bs ++ b ∷ []) after) same history))
            (λ j differ. others-IsRecorded v.next v.next id store.bids bids j (omega arith) differ)
            v.recorded;
      leads = save-AllLead id after store.token_auction_state store.auction_infos v.leads;
    })

-- A cancelled auction.
abbrev pub cancelled : TokenAuctionState → TokenAuctionState
cancelled state = record state { is_cancelled = true }

-- What a cancellation that succeeds has done.
pub record Cancelled (deps : Deps) (env : Env) (info : MessageInfo) (token_id token_address : ℕ)
    (store : Store) (out : Store × Response) : Type 0 where
  pub before : TokenAuctionState
  pub no_funds : deps.nonpayable info.funds ≡ ok tt
  pub current : get_existing_token_auction_state deps store token_id token_address ≡ ok before
  pub by_owner : info.sender ≡ before.owner
  pub not_ended : deps.is_expired before.end_time env.block ≡ false
  pub written : out.0 ≡ record store {
    token_auction_state = save before.auction_id (cancelled before) store.token_auction_state;
  }
  pub answered :
      out.1 ≡ add_messages [] (nft_msg before token_id info.sender ∷ refund_high_bid before)

pub execute_cancel-Cancelled :
    (deps : Deps) (env : Env) (info : MessageInfo) (store : Store) (token_id token_address : ℕ)
    {out : Store × Response}
    → execute_cancel deps env info store token_id token_address ≡ ok out
    → Cancelled deps env info token_id token_address store out
unfolding execute_cancel
execute_cancel-Cancelled deps env info store token_id token_address h =
    let After = Cancelled deps env info token_id token_address store in
    WhenOk-ok After (execute_cancel deps env info store token_id token_address)
      (WhenOk-bind After (deps.nonpayable info.funds) _ λ _ no_funds.
        WhenOk-bind After (get_existing_token_auction_state deps store token_id token_address) _
          λ state current.
            WhenOk-bind After (ensure (info.sender == state.owner) unauthorized) _ λ _ owner.
              WhenOk-bind After
                (ensure (not (deps.is_expired state.end_time env.block)) auction_ended) _
                λ _ going. record {
                  before = state;
                  no_funds = no_funds;
                  current = current;
                  by_owner = eqb→eq _ _ (ensure-eq-ok _ unauthorized owner);
                  not_ended = not-true _ (ensure-eq-ok _ auction_ended going);
                  written = refl;
                  answered = refl;
                })
      h

pub execute_cancel-IsValid :
    (deps : Deps) (env : Env) (info : MessageInfo) (store : Store) (token_id token_address : ℕ)
    {out : Store × Response}
    → IsValid store
    → execute_cancel deps env info store token_id token_address ≡ ok out
    → IsValid out.0
execute_cancel-IsValid deps env info store token_id token_address {out} v h =
    let p = execute_cancel-Cancelled deps env info store token_id token_address h in
    rewritten-IsValid deps token_id token_address store out.0 v p.before (cancelled p.before)
      (get_existing-Found deps token_id token_address store v p.current) refl refl refl p.written
