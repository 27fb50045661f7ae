-- ===== src/Auction/Invariant/Terms.antt =====
-- Changing the terms of an auction keeps the storage of the auction contract valid.
use flexible_pay_crowdfund_a.Base.{ℕ, not-true, ◌≡◌, refl, true, false, not, [], ◌==◌, eqb→eq}
use flexible_pay_crowdfund_a.Chain.Result.{
  ok, WhenOk-ok, WhenOk-bind, ensure, ensure-eq-ok, unauthorized, auction_already_started,
  invalid_expiration, start_time_after_end_time,
}
use flexible_pay_crowdfund_a.Chain.Dict.{save}
use flexible_pay_crowdfund_a.Chain.Message.{Response}
use flexible_pay_crowdfund_a.Chain.Deps.{Deps, Env, MessageInfo, Expiration}
use flexible_pay_crowdfund_a.Auction.State.{
  TokenAuctionState, Store, get_existing_token_auction_state,
}
use flexible_pay_crowdfund_a.Auction.Opening.{
  Terms, with_terms, validate_denom, validate_times, execute_update_auction,
}
use flexible_pay_crowdfund_a.Auction.Invariant.{IsValid, get_existing-Found}
use flexible_pay_crowdfund_a.Chain.Time.{get_and_validate_start_time, expiration_from_milliseconds}
use flexible_pay_crowdfund_a.Auction.Invariant.Handlers.{rewritten-IsValid}

validate_times-later :
    (deps : Deps) (env : Env) (t : Terms) {times : Expiration × Expiration}
    → validate_times deps env t ≡ ok times
    → deps.later times.1 times.0 ≡ true
unfolding validate_times
validate_times-later deps env t h =
    let After : Expiration × Expiration → Type 0 = λ times. deps.later times.1 times.0 ≡ true in
    WhenOk-ok After (validate_times deps env t)
      (WhenOk-bind After (get_and_validate_start_time deps env t.start_time) _ λ start _.
        WhenOk-bind After (expiration_from_milliseconds t.end_time) _ λ end _.
          WhenOk-bind After (ensure (deps.later end start.0) start_time_after_end_time) _
            λ _ later. ensure-eq-ok _ start_time_after_end_time later)
      h

-- What an update that succeeds has done: the auction has the new terms, and nothing else changed.
pub record Updated (deps : Deps) (env : Env) (info : MessageInfo) (token_id token_address : ℕ)
    (t : Terms) (store : Store) (out : Store × Response) : Type 0 where
  pub before : TokenAuctionState
  pub times : Expiration × Expiration
  pub current : get_existing_token_auction_state deps store token_id token_address ≡ ok before
  pub by_owner : info.sender ≡ before.owner
  pub not_started : deps.is_expired before.start_time env.block ≡ false
  pub in_order : deps.later times.1 times.0 ≡ true
  pub written : out.0 ≡ record store {
    token_auction_state =
        save before.auction_id (with_terms t times.0 times.1 before) store.token_auction_state;
  }
  pub silent : out.1 ≡ []

pub execute_update_auction-Updated :
    (deps : Deps) (env : Env) (info : MessageInfo) (store : Store) (token_id token_address : ℕ)
    (t : Terms) {out : Store × Response}
    → execute_update_auction deps env info store token_id token_address t ≡ ok out
    → Updated deps env info token_id token_address t store out
unfolding execute_update_auction
execute_update_auction-Updated deps env info store token_id token_address t h =
    let After = Updated deps env info token_id token_address t store in
    WhenOk-ok After (execute_update_auction deps env info store token_id token_address t)
      (WhenOk-bind After (deps.nonpayable info.funds) _ λ _ _.
        WhenOk-bind After (validate_denom deps t.coin_denom) _ λ _ _.
          WhenOk-bind After (get_existing_token_auction_state deps store token_id token_address) _
            λ state current.
              WhenOk-bind After (ensure (info.sender == state.owner) unauthorized) _ λ _ owner.
                WhenOk-bind After
                  (ensure (not (deps.is_expired state.start_time env.block))
                    auction_already_started)
                  _
                  λ _ early.
                    WhenOk-bind After (ensure (not (t.end_time == 0)) invalid_expiration) _ λ _ _.
                      WhenOk-bind After (validate_times deps env t) _ λ times valid. record {
                        before = state;
                        times = times;
                        current = current;
                        by_owner = eqb→eq _ _ (ensure-eq-ok _ unauthorized owner);
                        not_started = not-true _ (ensure-eq-ok _ auction_already_started early);
                        in_order = validate_times-later deps env t valid;
                        written = refl;
                        silent = refl;
                      })
      h

pub execute_update_auction-IsValid :
    (deps : Deps) (env : Env) (info : MessageInfo) (store : Store) (token_id token_address : ℕ)
    (t : Terms) {out : Store × Response}
    → IsValid store
    → execute_update_auction deps env info store token_id token_address t ≡ ok out
    → IsValid out.0
execute_update_auction-IsValid deps env info store token_id token_address t {out} v h =
    let p = execute_update_auction-Updated deps env info store token_id token_address t h in
    rewritten-IsValid deps token_id token_address store out.0 v p.before
      (with_terms t p.times.0 p.times.1 p.before)
      (get_existing-Found deps token_id token_address store v p.current) refl refl refl p.written
