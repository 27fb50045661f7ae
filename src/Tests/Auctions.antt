-- ===== src/Tests/Auctions.antt =====
-- An auction: started, bid on twice, claimed or cancelled.
use flexible_pay_crowdfund_a.Base.{
  ℕ, ◌+◌, ◌≡◌, refl, none, some, List, [], ◌∷◌, ◌++◌, arith, if◌then◌else◌, ◌==◌,
}
use flexible_pay_crowdfund_a.Chain.Result.{ok}
use flexible_pay_crowdfund_a.Chain.Dict.{save}
use flexible_pay_crowdfund_a.Chain.Coin.{single_coin}
use flexible_pay_crowdfund_a.Chain.Message.{Response}
use flexible_pay_crowdfund_a.Chain.Deps.{MessageInfo, at_time}
use flexible_pay_crowdfund_a.Chain.Time.{
  get_and_validate_start_time, expiration_from_milliseconds, nanos, from_nanos, block_to_expiration,
}
use flexible_pay_crowdfund_a.Ado.Base.{Ado, is_contract_owner}
use flexible_pay_crowdfund_a.Ado.Permissioning.{is_permissioned}
use flexible_pay_crowdfund_a.Auction.State.{
  TokenAuctionState, Store, get_existing_token_auction_state, get_and_increment_next_auction_id,
}
use flexible_pay_crowdfund_a.Auction.Handlers.{
  check_bid, execute_place_bid, execute_cancel, execute_claim,
}
use flexible_pay_crowdfund_a.Auction.Opening.{
  Terms, validate_denom, validate_times, new_auction, execute_start_auction, handle_receive_cw721,
}
use flexible_pay_crowdfund_a.Auction.Query.{OrderBy, read_bids}
use flexible_pay_crowdfund_a.Auction.Query.Pages.{read_bids-ordered}
use flexible_pay_crowdfund_a.Auction.Bidding.{IsCurrent}
use flexible_pay_crowdfund_a.Auction.Bidding.Refunds.{
  Call, place_bids, Settled, place_bids-Settled, sent_to, stake, paid_by,
}
use flexible_pay_crowdfund_a.Auction.Claim.{CanClaim, sold_to, place_bids-execute_claim}
use flexible_pay_crowdfund_a.Auction.Cancel.{Closed, execute_cancel-Closed, execute_cancel_again}
use flexible_pay_crowdfund_a.Auction.Invariant.{IsValid, initial}
use flexible_pay_crowdfund_a.Auction.Reachable.{
  Reachable, received, bid, instantiated, next, Reachable-IsValid,
}
use flexible_pay_crowdfund_a.Tests.{value_or, coin, deps, at_second, ado}

abbrev plain : Ado
plain = record ado { module_info = [] }

abbrev from : ℕ → ℕ → MessageInfo
from sender amount = record { sender = sender; funds = coin 1 amount ∷ [] }

abbrev bare : ℕ → MessageInfo
bare sender = record { sender = sender; funds = [] }

abbrev terms : Terms
terms = record {
  start_time = none;
  end_time = 100000;
  coin_denom = 1;
  whitelist = none;
  min_bid = some 40;
  recipient = none;
}

abbrev token_auction : TokenAuctionState
token_auction = new_auction terms (at_time 10001000000) (at_time 100000000000) 1 4 7 3

abbrev auctioned : Store
auctioned = record {
  ado = plain;
  next_auction_id = some 2;
  bids = (1, []) ∷ [];
  token_auction_state = (1, token_auction) ∷ [];
  auction_infos = (7003, record { auction_ids = 1 ∷ []; token_address = 3; token_id = 7 }) ∷ [];
}

-- The token 7 of the contract 3, handed over by 4.
begins :
    handle_receive_cw721 deps (at_second 10) (bare 3) (initial plain) 4 7 terms ≡ ok (auctioned, [])
unfolding handle_receive_cw721 is_permissioned is_contract_owner execute_start_auction
    validate_denom validate_times get_and_validate_start_time expiration_from_milliseconds nanos
    from_nanos block_to_expiration get_and_increment_next_auction_id save
begins = refl

current : IsCurrent deps 7 3 auctioned token_auction
current = record { latest = refl; stored = refl }

abbrev calls : List Call
calls = (at_second 20, from 5 50) ∷ (at_second 30, from 6 70) ∷ []

abbrev bids_placed : Store × Response
bids_placed = value_or (auctioned, []) (place_bids deps 7 3 auctioned calls)

bids_succeed : place_bids deps 7 3 auctioned calls ≡ ok bids_placed
unfolding save get_existing_token_auction_state execute_place_bid check_bid single_coin
bids_succeed = refl

place_bids-Settled_example : Settled deps 7 3 auctioned token_auction calls bids_placed
place_bids-Settled_example =
    place_bids-Settled deps 7 3 auctioned token_auction calls current bids_succeed

abbrev won : TokenAuctionState
won = record token_auction { high_bidder_addr = 6; high_bidder_amount = 70 }

claimable : CanClaim deps (at_second 200) (bare 9) 7 3 90 4 plain token_auction
claimable = record {
  no_funds = refl;
  ended = refl;
  held = refl;
  no_modules = refl;
  connected = refl;
  to_owner = refl;
  resolved = refl;
}

IsCurrent-then : IsCurrent deps 7 3 bids_placed.0 won
unfolding save get_existing_token_auction_state execute_place_bid check_bid single_coin
IsCurrent-then = record { latest = refl; stored = refl }

place_bids-execute_claim_example :
    (execute_claim deps (at_second 200) (bare 9) bids_placed.0 7 3
      ≡ ok (bids_placed.0, sold_to won 7 4))
    × ((a : ℕ)
        → sent_to a 1 (bids_placed.1 ++ sold_to won 7 4) + stake a won
          ≡ paid_by a 1 calls + (if 4 == a then 70 else 0))
place_bids-execute_claim_example =
    place_bids-execute_claim deps (at_second 200) (bare 9) 7 3 90 4 auctioned token_auction won
      calls current refl claimable bids_succeed IsCurrent-then refl (omega arith)

abbrev first_bid : Store × Response
first_bid =
    value_or (auctioned, []) (execute_place_bid deps (at_second 20) (from 5 50) auctioned 7 3)

first_bid_succeeds : execute_place_bid deps (at_second 20) (from 5 50) auctioned 7 3 ≡ ok first_bid
unfolding save get_existing_token_auction_state execute_place_bid check_bid single_coin
first_bid_succeeds = refl

reached : Reachable first_bid.0
reached =
    next
      (next (instantiated plain)
        (received deps (at_second 10) (bare 3) (initial plain) 4 7 terms begins))
      (bid deps (at_second 20) (from 5 50) auctioned 7 3 first_bid_succeeds)

Reachable-IsValid_example : IsValid first_bid.0
Reachable-IsValid_example = Reachable-IsValid reached

abbrev given_up : Store × Response
given_up = value_or (auctioned, []) (execute_cancel deps (at_second 25) (bare 4) first_bid.0 7 3)

cancel_succeeds : execute_cancel deps (at_second 25) (bare 4) first_bid.0 7 3 ≡ ok given_up
unfolding save get_existing_token_auction_state execute_place_bid check_bid single_coin
    execute_cancel
cancel_succeeds = refl

execute_cancel-Closed_example : Closed deps (at_second 25) (bare 4) first_bid.0 7 3 given_up
execute_cancel-Closed_example =
    execute_cancel-Closed deps (at_second 25) (bare 4) first_bid.0 7 3 (Reachable-IsValid reached)
      cancel_succeeds

execute_cancel_again_example :
    (before : TokenAuctionState) × (again : Store × Response) × IsCurrent deps 7 3 first_bid.0
      before
    × (execute_cancel deps (at_second 25) (bare 4) given_up.0 7 3 ≡ ok again)
    × (again.1 ≡ given_up.1)
    × ((a : ℕ)
        → sent_to a before.coin_denom (given_up.1 ++ again.1) ≡ stake a before + stake a before)
execute_cancel_again_example =
    execute_cancel_again deps (at_second 25) (bare 4) first_bid.0 7 3 (Reachable-IsValid reached)
      cancel_succeeds

abbrev two_bids : Store
two_bids = record auctioned {
  bids =
      (
        1,
        record { bidder = 5; amount = 50; timestamp = 20 }
            ∷ record { bidder = 6; amount = 70; timestamp = 30 }
            ∷ [],
      )
      ∷ [];
}

read_bids-ordered_example :
    read_bids two_bids 1 (some 0) (some 5) (some OrderBy.desc)
    ≡ ok (record { bidder = 5; amount = 50; timestamp = 20 } ∷ [])
read_bids-ordered_example =
    read_bids-ordered two_bids 1 (some 0) (some 5) (some OrderBy.desc) refl (omega arith)
