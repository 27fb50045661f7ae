-- ===== src/Auction/State.antt =====
-- The storage of the auction contract: contracts/non-fungible-tokens/andromeda-auction/src/state.rs,
-- with the types of packages/andromeda-non-fungible-tokens/src/auction.rs; and the lookups of
-- contract.rs. An auction's entry is stored under the text of the token's id followed by that of the
-- token contract's address.
use flexible_pay_crowdfund_a.Base.{
  ℕ, Bool, Option, none, some, List, [], ◌∷◌, ◌++◌, unwrap_or, ◌==◌, if◌then◌else◌,
}
use flexible_pay_crowdfund_a.Chain.Result.{
  Result, ok, panicked, ◌>>=◌, or_err, not_found, auction_does_not_exist,
}
use flexible_pay_crowdfund_a.Chain.Uint.{u128_max, checked_add}
use flexible_pay_crowdfund_a.Chain.Dict.{Dict, may_load, save}
use flexible_pay_crowdfund_a.Chain.Deps.{Deps, Expiration, empty_text}
use flexible_pay_crowdfund_a.Ado.Base.{Ado}
use flexible_pay_crowdfund_a.Ado.Recipient.{Recipient}

pub record AuctionInfo : Type 0 where
  pub auction_ids : List ℕ
  pub token_address : ℕ
  pub token_id : ℕ

pub record TokenAuctionState : Type 0 where
  pub start_time : Expiration
  pub end_time : Expiration
  pub high_bidder_addr : ℕ
  pub high_bidder_amount : ℕ
  pub coin_denom : ℕ
  pub auction_id : ℕ
  pub whitelist : Option (List ℕ)
  pub min_bid : Option ℕ
  pub owner : ℕ
  pub token_id : ℕ
  pub token_address : ℕ
  pub is_cancelled : Bool
  pub recipient : Option Recipient

pub record Bid : Type 0 where
  pub bidder : ℕ
  pub amount : ℕ
  pub timestamp : ℕ

pub record Store : Type 0 where
  pub ado : Ado
  pub next_auction_id : Option ℕ
  pub bids : Dict (List Bid)
  pub token_auction_state : Dict TokenAuctionState
  pub auction_infos : Dict AuctionInfo

-- `AuctionInfo::default`, `AuctionInfo::last`, `AuctionInfo::push`
abbrev pub default_info : AuctionInfo
default_info = record { auction_ids = []; token_address = empty_text; token_id = empty_text }

abbrev pub last {ℓ} : {A : Type ℓ} → List A → Option A
last [] = none
last (x ∷ []) = some x
last (x ∷ y ∷ xs) = last (y ∷ xs)

abbrev pub push : AuctionInfo → ℕ → AuctionInfo
push i id = record i { auction_ids = i.auction_ids ++ id ∷ [] }

-- `*auction_info.last().unwrap()`
abbrev pub latest_auction_id : Option AuctionInfo → Result ℕ
latest_auction_id none = or_err none auction_does_not_exist
latest_auction_id (some i) = elim (last i.auction_ids) [ none ↦ panicked | some id ↦ ok id ]

unfoldable pub get_existing_token_auction_state : Deps → Store → ℕ → ℕ → Result TokenAuctionState
get_existing_token_auction_state deps store token_id token_address = do
  id ← latest_auction_id (may_load (deps.concat token_id token_address) store.auction_infos)
  or_err (may_load id store.token_auction_state) not_found

-- The entry of a token, with its names if it is new.
abbrev pub named_info : AuctionInfo → ℕ → ℕ → AuctionInfo
named_info i token_id token_address =
    if i.token_address == empty_text
    then record i { token_address = token_address; token_id = token_id }
    else i

unfoldable pub get_and_increment_next_auction_id : Deps → Store → ℕ → ℕ → Result (ℕ × Store)
get_and_increment_next_auction_id deps store token_id token_address = do
  next_auction_id ← or_err store.next_auction_id not_found
  incremented_next_auction_id ← checked_add u128_max next_auction_id 1
  let key = deps.concat token_id token_address
  let info = push (unwrap_or (may_load key store.auction_infos) default_info) next_auction_id
  ok (
    next_auction_id,
    record store {
      next_auction_id = some incremented_next_auction_id;
      auction_infos = save key (named_info info token_id token_address) store.auction_infos;
    },
  )
