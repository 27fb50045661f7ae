-- ===== src/Auction/Handlers.antt =====
-- Bidding, cancelling and claiming: handlers of
-- contracts/non-fungible-tokens/andromeda-auction/src/contract.rs.
use flexible_pay_crowdfund_a.Base.{
  ℕ, Bool, true, false, not, ◌&&◌, ◌||◌, Option, none, some, List, [], ◌∷◌, ◌++◌, unwrap_or, ltb,
  leb, ◌==◌, if◌then◌else◌,
}
use flexible_pay_crowdfund_a.Chain.Result.{
  Result, ok, ◌>>=◌, ◌>>◌, ensure, or_err, not_found, unauthorized, invalid_funds,
  auction_cancelled, auction_not_started, auction_ended, auction_not_ended, auction_already_claimed,
  token_owner_cannot_bid, highest_bidder_cannot_out_bid, bid_smaller_than_highest_bid,
}
use flexible_pay_crowdfund_a.Chain.Coin.{Coin, native, try_get_coin, single_coin}
use flexible_pay_crowdfund_a.Chain.Dict.{may_load, save}
use flexible_pay_crowdfund_a.Chain.Message.{
  CosmosMsg, SubMsg, bank_send, wasm_execute, transfer_nft, Response, add_messages, add_message_to,
}
use flexible_pay_crowdfund_a.Chain.Deps.{Deps, Env, MessageInfo, empty_text}
use flexible_pay_crowdfund_a.Ado.Modules.{on_funds_transfer}
use flexible_pay_crowdfund_a.Ado.Recipient.{generate_direct_msg, from_string}
use flexible_pay_crowdfund_a.Auction.State.{
  TokenAuctionState, Bid, Store, get_existing_token_auction_state,
}

abbrev pub any_eq : ℕ → List ℕ → Bool
any_eq a [] = false
any_eq a (x ∷ xs) = x == a || any_eq a xs

abbrev pub is_listed : ℕ → Option (List ℕ) → Bool
is_listed a none = true
is_listed a (some xs) = any_eq a xs

-- The highest bid, sent back to its bidder if there is one.
abbrev pub refund_high_bid : TokenAuctionState → List CosmosMsg
refund_high_bid state =
    if ltb 0 state.high_bidder_amount
    then bank_send state.high_bidder_addr
        (record { denom = state.coin_denom; amount = state.high_bidder_amount } ∷ [])
      ∷ []
    else []

-- The checks of a bid, in their order; what is left is the coin that is bid.
unfoldable pub check_bid : Deps → Env → MessageInfo → TokenAuctionState → Result Coin
check_bid deps env info state = do
  ensure (not state.is_cancelled) auction_cancelled
  ensure (deps.is_expired state.start_time env.block) auction_not_started
  ensure (not (deps.is_expired state.end_time env.block)) auction_ended
  ensure (not (state.owner == info.sender)) token_owner_cannot_bid
  payment ← single_coin info.funds
  ensure (is_listed info.sender state.whitelist) unauthorized
  ensure (not (state.high_bidder_addr == info.sender)) highest_bidder_cannot_out_bid
  ensure (payment.denom == state.coin_denom && ltb 0 payment.amount) invalid_funds
  ensure (leb (unwrap_or state.min_bid 0) payment.amount) invalid_funds
  ensure (ltb state.high_bidder_amount payment.amount) bid_smaller_than_highest_bid
  ok payment

abbrev pub new_bid : Env → MessageInfo → Coin → Bid
new_bid env info payment = record {
  bidder = info.sender;
  amount = payment.amount;
  timestamp = env.block.time;
}

unfoldable pub execute_place_bid :
    Deps → Env → MessageInfo → Store → ℕ → ℕ → Result (Store × Response)
execute_place_bid deps env info store token_id token_address = do
  state ← get_existing_token_auction_state deps store token_id token_address
  payment ← check_bid deps env info state
  let state' : TokenAuctionState = record state {
    high_bidder_addr = info.sender;
    high_bidder_amount = payment.amount;
  }
  bids_for_auction ← or_err (may_load state.auction_id store.bids) not_found
  ok (
    record store {
      token_auction_state = save state.auction_id state' store.token_auction_state;
      bids = save state.auction_id (bids_for_auction ++ new_bid env info payment ∷ []) store.bids;
    },
    add_messages [] (refund_high_bid state),
  )

abbrev pub nft_msg : TokenAuctionState → ℕ → ℕ → CosmosMsg
nft_msg state token_id to = wasm_execute state.token_address (transfer_nft to token_id) []

unfoldable pub execute_cancel : Deps → Env → MessageInfo → Store → ℕ → ℕ → Result (Store × Response)
execute_cancel deps env info store token_id token_address = do
  deps.nonpayable info.funds
  state ← get_existing_token_auction_state deps store token_id token_address
  ensure (info.sender == state.owner) unauthorized
  ensure (not (deps.is_expired state.end_time env.block)) auction_ended
  ok (
    record store {
      token_auction_state =
          save state.auction_id (record state { is_cancelled = true }) store.token_auction_state;
    },
    add_messages [] (nft_msg state token_id info.sender ∷ refund_high_bid state),
  )

-- What the modules leave of the winning bid, and what they want sent.
unfoldable pub purchase_token :
    Deps → MessageInfo → Store → TokenAuctionState → Result (Coin × List SubMsg)
purchase_token deps info store state = do
  (msgs, remainder) ←
      on_funds_transfer deps store.ado info.sender
        (native (record { denom = state.coin_denom; amount = state.high_bidder_amount }))
  remaining_amount ← try_get_coin remainder
  ok (record { denom = state.coin_denom; amount = remaining_amount.amount }, msgs)

-- The owner's share, to the recipient of the auction or to the owner, unless it is zero.
unfoldable pub pay_owner : Deps → TokenAuctionState → Coin → Response → Result Response
pay_owner deps state payment resp =
    let paying = (do
      m ←
          generate_direct_msg deps (unwrap_or state.recipient (from_string state.owner))
            (payment ∷ [])
      ok (resp ++ m ∷ [])) in
    if payment.amount == 0 then ok resp else paying

-- A claim writes nothing.
unfoldable pub execute_claim : Deps → Env → MessageInfo → Store → ℕ → ℕ → Result (Store × Response)
unfolding purchase_token pay_owner
execute_claim deps env info store token_id token_address = do
  deps.nonpayable info.funds
  state ← get_existing_token_auction_state deps store token_id token_address
  ensure (deps.is_expired state.end_time env.block) auction_not_ended
  token_owner ← deps.owner_of state.token_address token_id
  ensure (token_owner == env.contract_address) auction_already_claimed
  let sold = (do
    (payment, msgs) ← purchase_token deps info store state
    let resp = add_message_to msgs (nft_msg state token_id state.high_bidder_addr)
    resp' ← pay_owner deps state payment resp
    ok (store, resp'))
  if state.high_bidder_addr == empty_text || state.high_bidder_amount == 0
      then ok (store, add_message_to [] (nft_msg state token_id state.owner))
      else sold
