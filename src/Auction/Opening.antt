-- ===== src/Auction/Opening.antt =====
-- Starting an auction and changing its terms, and the token contracts that may start one: handlers of
-- contracts/non-fungible-tokens/andromeda-auction/src/contract.rs.
use flexible_pay_crowdfund_a.Base.{ℕ, false, not, Option, List, [], ◌==◌}
use flexible_pay_crowdfund_a.Chain.Result.{
  Result, ok, ◌>>=◌, ◌>>◌, ensure, unauthorized, start_time_after_end_time, invalid_asset,
  invalid_expiration, auction_already_started,
}
use flexible_pay_crowdfund_a.Chain.Dict.{save}
use flexible_pay_crowdfund_a.Chain.Message.{Response}
use flexible_pay_crowdfund_a.Chain.Deps.{Deps, Env, MessageInfo, Expiration, empty_text}
use flexible_pay_crowdfund_a.Chain.Time.{get_and_validate_start_time, expiration_from_milliseconds}
use flexible_pay_crowdfund_a.Ado.Base.{is_contract_owner, whitelisted}
use flexible_pay_crowdfund_a.Ado.Permissioning.{is_permissioned, set_permission, remove_permission}
use flexible_pay_crowdfund_a.Ado.Recipient.{Recipient}
use flexible_pay_crowdfund_a.Auction.State.{
  TokenAuctionState, Store, get_existing_token_auction_state, get_and_increment_next_auction_id,
}

-- The number that stands for the text "SEND_NFT".
abbrev pub send_nft_action : ℕ
send_nft_action = 2

-- The terms of `StartAuction` and of `UpdateAuction`.
pub record Terms : Type 0 where
  pub start_time : Option ℕ
  pub end_time : ℕ
  pub coin_denom : ℕ
  pub whitelist : Option (List ℕ)
  pub min_bid : Option ℕ
  pub recipient : Option Recipient

unfoldable pub validate_denom : Deps → ℕ → Result (Unit {0})
validate_denom deps denom = do
  ensure (not (denom == empty_text)) invalid_asset
  supply ← deps.query_supply denom
  ensure (not (supply == 0)) invalid_asset

-- The start and the end of an auction.
unfoldable pub validate_times : Deps → Env → Terms → Result (Expiration × Expiration)
validate_times deps env t = do
  (start_expiration, current_time) ← get_and_validate_start_time deps env t.start_time
  end_expiration ← expiration_from_milliseconds t.end_time
  ensure (deps.later end_expiration start_expiration) start_time_after_end_time
  ok (start_expiration, end_expiration)

abbrev pub new_auction : Terms → Expiration → Expiration → ℕ → ℕ → ℕ → ℕ → TokenAuctionState
new_auction t start end id owner token_id token_address = record {
  start_time = start;
  end_time = end;
  high_bidder_addr = empty_text;
  high_bidder_amount = 0;
  coin_denom = t.coin_denom;
  auction_id = id;
  whitelist = t.whitelist;
  min_bid = t.min_bid;
  owner = owner;
  token_id = token_id;
  token_address = token_address;
  is_cancelled = false;
  recipient = t.recipient;
}

unfoldable pub execute_start_auction :
    Deps → Env → MessageInfo → Store → ℕ → ℕ → Terms → Result (Store × Response)
unfolding validate_denom validate_times
execute_start_auction deps env info store sender token_id t = do
  validate_denom deps t.coin_denom
  (start, end) ← validate_times deps env t
  (id, store') ← get_and_increment_next_auction_id deps store token_id info.sender
  ok (
    record store' {
      bids = save id [] store'.bids;
      token_auction_state =
          save id (new_auction t start end id sender token_id info.sender)
            store'.token_auction_state;
    },
    [],
  )

-- A token that a CW721 contract hands over, with the terms of its auction.
unfoldable pub handle_receive_cw721 :
    Deps → Env → MessageInfo → Store → ℕ → ℕ → Terms → Result (Store × Response)
unfolding is_permissioned execute_start_auction
handle_receive_cw721 deps env info store sender token_id t = do
  ado ← is_permissioned deps store.ado env send_nft_action info.sender
  execute_start_auction deps env info (record store { ado = ado }) sender token_id t

-- An auction under other terms.
abbrev pub with_terms : Terms → Expiration → Expiration → TokenAuctionState → TokenAuctionState
with_terms t start end state = record state {
  start_time = start;
  end_time = end;
  whitelist = t.whitelist;
  coin_denom = t.coin_denom;
  min_bid = t.min_bid;
  recipient = t.recipient;
}

unfoldable pub execute_update_auction :
    Deps → Env → MessageInfo → Store → ℕ → ℕ → Terms → Result (Store × Response)
unfolding validate_denom validate_times
execute_update_auction deps env info store token_id token_address t = do
  deps.nonpayable info.funds
  validate_denom deps t.coin_denom
  state ← get_existing_token_auction_state deps store token_id token_address
  ensure (info.sender == state.owner) unauthorized
  ensure (not (deps.is_expired state.start_time env.block)) auction_already_started
  ensure (not (t.end_time == 0)) invalid_expiration
  (start, end) ← validate_times deps env t
  ok (
    record store {
      token_auction_state =
          save state.auction_id (with_terms t start end state) store.token_auction_state;
    },
    [],
  )

unfoldable pub execute_authorize_token_contract :
    Deps → MessageInfo → Store → ℕ → Option Expiration → Result (Store × Response)
execute_authorize_token_contract deps info store token_address expiration = do
  addr ← deps.get_raw_address token_address
  is_owner ← is_contract_owner store.ado info.sender
  ensure is_owner unauthorized
  ok (
    record store {
      ado = set_permission deps store.ado send_nft_action addr (whitelisted expiration);
    },
    [],
  )

unfoldable pub execute_deauthorize_token_contract :
    Deps → MessageInfo → Store → ℕ → Result (Store × Response)
execute_deauthorize_token_contract deps info store token_address = do
  addr ← deps.get_raw_address token_address
  is_owner ← is_contract_owner store.ado info.sender
  ensure is_owner unauthorized
  ok (record store { ado = remove_permission deps store.ado send_nft_action addr }, [])
