-- ===== src/Auction/Query.antt =====
-- The queries of the auction contract, contracts/non-fungible-tokens/andromeda-auction/src/contract.rs
-- and state.rs, without the encoding of the answers.
pub mod Pages
use flexible_pay_crowdfund_a.Base.{
  ℕ, ◌+◌, ◌-◌, ◌%◌, ◌^◌, min, Bool, true, false, not, ◌||◌, ◌&&◌, Option, none, some, List, [], ◌∷◌,
  ◌++◌, length, take, drop, unwrap_or, ltb, leb, ◌==◌, if◌then◌else◌,
}
use flexible_pay_crowdfund_a.Chain.Result.{
  Result, ok, err, panicked, ◌>>=◌, ◌>>◌, ensure, or_err, not_found, auction_does_not_exist,
}
use flexible_pay_crowdfund_a.Chain.Uint.{add_or_panic}
use flexible_pay_crowdfund_a.Chain.Dict.{Dict, may_load}
use flexible_pay_crowdfund_a.Chain.Deps.{Deps, Env}
use flexible_pay_crowdfund_a.Auction.State.{
  TokenAuctionState, AuctionInfo, Bid, Store, get_existing_token_auction_state,
}

-- `if let Ok(state) = …`: a failed lookup of any kind is reported as a missing auction.
abbrev or_missing : Result TokenAuctionState → Result TokenAuctionState
or_missing (ok state) = ok state
or_missing (err e) = err auction_does_not_exist
or_missing panicked = panicked

module _ (deps : Deps) (store : Store) (token_id token_address : ℕ) where
  unfoldable pub query_is_cancelled : Result Bool
  query_is_cancelled = do
    state ← or_missing (get_existing_token_auction_state deps store token_id token_address)
    ok state.is_cancelled

  unfoldable pub query_latest_auction_state : Result TokenAuctionState
  query_latest_auction_state =
      or_missing (get_existing_token_auction_state deps store token_id token_address)

  unfoldable pub query_is_claimed : Env → Result Bool
  query_is_claimed env = do
    state ← get_existing_token_auction_state deps store token_id token_address
    token_owner ← deps.owner_of state.token_address token_id
    ok (not (token_owner == env.contract_address))

  unfoldable pub query_is_closed : Env → Result Bool
  unfolding query_is_claimed query_is_cancelled
  query_is_closed env = do
    state ← get_existing_token_auction_state deps store token_id token_address
    claimed ← query_is_claimed env
    let cancelled = (do c ← query_is_cancelled; ok (c || deps.is_expired state.end_time env.block))
    if claimed then ok true else cancelled

  unfoldable pub query_auction_ids : List ℕ
  query_auction_ids = elim (may_load (deps.concat token_id token_address) store.auction_infos) [
    | none ↦ []
    | some i ↦ i.auction_ids
  ]

unfoldable pub query_auction_state : Store → ℕ → Result TokenAuctionState
query_auction_state store id = or_err (may_load id store.token_auction_state) not_found

-- `usize` of the 32-bit machine that the contract runs on.
abbrev pub usize_max : ℕ
usize_max = 2 ^ 32 - 1

abbrev pub as_usize : ℕ → ℕ
as_usize n = n % 2 ^ 32

abbrev pub max_limit : ℕ
max_limit = 30

abbrev pub default_limit : ℕ
default_limit = 10

pub data OrderBy : Type 0 where
  asc desc : OrderBy

abbrev pub reverse {ℓ} : {A : Type ℓ} → List A → List A
reverse [] = []
reverse (x ∷ xs) = reverse xs ++ x ∷ []

-- `xs[start..end]`
unfoldable pub slice {ℓ} : {A : Type ℓ} → ℕ → ℕ → List A → Result (List A)
slice start end xs =
    if leb start end && leb end (length xs)
    then ok (take (end - start) (drop start xs))
    else panicked

abbrev pub first_of : Option ℕ → Result ℕ
first_of none = ok 0
first_of (some x) = add_or_panic usize_max (as_usize x) 1

abbrev pub in_order : Option OrderBy → ℕ → ℕ → List Bid → Result (List Bid)
in_order (some OrderBy.desc) start end bids = do
  page ← slice (length bids - min (length bids) end) (length bids - min start (length bids)) bids
  ok (reverse page)
in_order (some OrderBy.asc) start end bids =
    slice (min (length bids) start) (min end (length bids)) bids
in_order none start end bids = slice (min (length bids) start) (min end (length bids)) bids

unfoldable pub read_bids : Store → ℕ → Option ℕ → Option ℕ → Option OrderBy → Result (List Bid)
unfolding slice
read_bids store auction_id start_after limit order_by = do
  bids ← or_err (may_load auction_id store.bids) not_found
  start ← first_of start_after
  end ← add_or_panic usize_max start (min (unwrap_or limit default_limit) max_limit)
  in_order order_by start end bids

-- The keys of the entries of a token contract, after a key.
abbrev pub keys_of : ℕ → Option ℕ → Dict AuctionInfo → List ℕ
keys_of token_address start_after [] = []
keys_of token_address start_after ((k, i) ∷ d) =
    let rest = keys_of token_address start_after d in
    if i.token_address == token_address && elim start_after [ none ↦ true | some s ↦ ltb s k ]
    then k ∷ rest
    else rest

abbrev pub load_all : Dict AuctionInfo → List ℕ → Result (List AuctionInfo)
load_all d [] = ok []
load_all d (k ∷ ks) = do i ← or_err (may_load k d) not_found; rest ← load_all d ks; ok (i ∷ rest)

unfoldable pub read_auction_infos : Store → ℕ → Option ℕ → Option ℕ → Result (List AuctionInfo)
read_auction_infos store token_address start_after limit = load_all store.auction_infos (
    take (min (unwrap_or limit default_limit) max_limit)
      (keys_of token_address start_after store.auction_infos))
