-- ===== src/Auction/Claim.antt =====
-- The end of an auction: `execute_claim` of
-- contracts/non-fungible-tokens/andromeda-auction/src/contract.rs, after a row of bids.
use flexible_pay_crowdfund_a.Base.{
  ℕ, ◌+◌, ◌<◌, ◌≡◌, refl, ap, subst, ◌∙◌, sym, true, false, none, List, [], ◌∷◌, ◌++◌, arith, ◌==◌,
  eqb_self, if◌then◌else◌, take_nil, unwrap_or,
}
use flexible_pay_crowdfund_a.Chain.Result.{ok, ok_injective}
use flexible_pay_crowdfund_a.Chain.Coin.{Coin, try_get_coin}
use flexible_pay_crowdfund_a.Chain.Message.{Response, new_sub_msg, bank_send}
use flexible_pay_crowdfund_a.Chain.Deps.{Deps, Env, MessageInfo, empty_text}
use flexible_pay_crowdfund_a.Ado.Base.{Ado}
use flexible_pay_crowdfund_a.Ado.Modules.{on_funds_transfer, load_modules, ask_modules}
use flexible_pay_crowdfund_a.Ado.Recipient.{generate_direct_msg}
use flexible_pay_crowdfund_a.Auction.State.{TokenAuctionState, Store}
use flexible_pay_crowdfund_a.Auction.Handlers.{purchase_token, pay_owner, nft_msg, execute_claim}
use flexible_pay_crowdfund_a.Auction.Bidding.{IsCurrent, IsCurrent-get_existing}
use flexible_pay_crowdfund_a.Auction.Bidding.Refunds.{
  Call, place_bids, sent_to, sent_to-append, stake, paid_by, with_highest, place_bids-Settled,
}

-- The highest bid as a coin.
abbrev pub winning : TokenAuctionState → Coin
winning state = record { denom = state.coin_denom; amount = state.high_bidder_amount }

-- What a claim answers: the token for the highest bidder and the highest bid for the owner.
abbrev pub sold_to : TokenAuctionState → ℕ → ℕ → Response
sold_to state token_id payee =
    new_sub_msg (nft_msg state token_id state.high_bidder_addr)
    ∷ new_sub_msg (bank_send payee (winning state ∷ []))
    ∷ []

module _ (deps : Deps) (env : Env) (info : MessageInfo) (token_id token_address vfs payee : ℕ) where
  -- A claim can be made: it comes without funds, the time of the auction is over, the contract holds
  -- the token, no module takes a share, and the owner, who gets the highest bid, has an address.
  pub record CanClaim (ado : Ado) (state : TokenAuctionState) : Type 0 where
    pub no_funds : deps.nonpayable info.funds ≡ ok tt
    pub ended : deps.is_expired state.end_time env.block ≡ true
    pub held : deps.owner_of state.token_address token_id ≡ ok env.contract_address
    pub no_modules : ado.module_info ≡ []
    pub connected : deps.get_vfs_address ≡ ok vfs
    pub to_owner : state.recipient ≡ none
    pub resolved : deps.get_raw_address state.owner ≡ ok payee

  -- What is bid stays whole without modules.
  whole :
      (store : Store) (state : TokenAuctionState)
      → CanClaim store.ado state
      → purchase_token deps info store state ≡ ok (winning state, [])
  unfolding purchase_token on_funds_transfer load_modules ask_modules try_get_coin
  whole store state c =
      rw (c.connected, c.no_modules, take_nil (unwrap_or store.ado.module_idx 1)) refl

  claimed :
      (store : Store) (state : TokenAuctionState)
      → IsCurrent deps token_id token_address store state
      → CanClaim store.ado state
      → (state.high_bidder_addr == empty_text) ≡ false
      → 0 < state.high_bidder_amount
      → execute_claim deps env info store token_id token_address
        ≡ ok (store, sold_to state token_id payee)
  unfolding execute_claim pay_owner generate_direct_msg
  claimed store state current c bidder positive =
      let some_bid : (state.high_bidder_amount == 0) ≡ false = ground arith in
      rw
        (
          c.no_funds,
          IsCurrent-get_existing deps token_id token_address store state current,
          c.ended,
          c.held,
          eqb_self env.contract_address,
          bidder,
          some_bid,
          whole store state c,
          c.to_owner,
          c.resolved,
          some_bid,
        )
        refl

  -- A claim that can be made before a row of bids can be made after it.
  still-CanClaim :
      (ado : Ado) (state final : TokenAuctionState) (out : Ado)
      → final ≡ with_highest final state
      → out ≡ ado
      → CanClaim ado state
      → CanClaim out final
  still-CanClaim ado state final out terms same c =
      let c' : CanClaim ado (with_highest final state) = record {
        no_funds = c.no_funds;
        ended = c.ended;
        held = c.held;
        no_modules = c.no_modules;
        connected = c.connected;
        to_owner = c.to_owner;
        resolved = c.resolved;
      } in
      let path : CanClaim ado (with_highest final state) ≡ CanClaim out final =
        λ i. CanClaim (sym same i) (sym terms i) in
      subst (λ T. T) path c'

  sold-sent_to :
      (state : TokenAuctionState) (a : ℕ)
      → sent_to a state.coin_denom (sold_to state token_id payee)
        ≡ (if payee == a then state.high_bidder_amount else 0)
  sold-sent_to state a = ground (arith, eqb_self state.coin_denom)

  -- The contract pays out what it was paid, where no module is registered and the auction has no
  -- recipient of its own. After a row of bids on an auction that starts without one and ends with a
  -- highest bidder and a highest bid above zero, a claim that comes without funds after the auction's
  -- time, with the token in the contract and the owner's address known, succeeds and sends the token
  -- to the highest bidder; and to every address the bids and the claim together send what it paid in
  -- the auction's denomination, less the highest bid for the highest bidder and plus the highest bid
  -- for the owner's address.
  pub place_bids-execute_claim :
      (store : Store) (state final : TokenAuctionState) (calls : List Call) {out : Store × Response}
      → IsCurrent deps token_id token_address store state
      → state.high_bidder_amount ≡ 0
      → CanClaim store.ado state
      → place_bids deps token_id token_address store calls ≡ ok out
      → IsCurrent deps token_id token_address out.0 final
      → (final.high_bidder_addr == empty_text) ≡ false
      → 0 < final.high_bidder_amount
      → (execute_claim deps env info out.0 token_id token_address
          ≡ ok (out.0, sold_to final token_id payee))
        × ((a : ℕ)
            → sent_to a state.coin_denom (out.1 ++ sold_to final token_id payee) + stake a final
              ≡ paid_by a state.coin_denom calls
                + (if payee == a then final.high_bidder_amount else 0))
  place_bids-execute_claim store state final calls {out} current fresh c h ended bidder positive =
      let s = place_bids-Settled deps token_id token_address store state calls current h in
      let d = state.coin_denom in
      let same : s.final ≡ final = ok_injective (
        sym (IsCurrent-get_existing deps token_id token_address out.0 s.final s.current)
        ∙ IsCurrent-get_existing deps token_id token_address out.0 final ended) in
      let terms : final ≡ with_highest final state =
        subst (λ f. f ≡ with_highest f state) same s.same_terms in
      let paid : (a : ℕ)
          → sent_to a d (sold_to final token_id payee)
            ≡ (if payee == a then final.high_bidder_amount else 0) =
        λ a.
          ap (λ n. sent_to a n (sold_to final token_id payee)) (sym (ap (λ f. f.coin_denom) terms))
          ∙ sold-sent_to final a in
      (
        claimed out.0 final ended
            (still-CanClaim store.ado state final out.0.ado terms s.same_ado c) bidder positive,
        λ a.
            let both = sent_to-append a d out.1 (sold_to final token_id payee) in
            let bids : sent_to a d out.1 + stake a final ≡ stake a state + paid_by a d calls =
              subst (λ f. sent_to a d out.1 + stake a f ≡ stake a state + paid_by a d calls) same
                (s.settled a) in
            let nothing : stake a state ≡ 0 = ground (arith, fresh) in
            let owner = paid a in omega (arith, both, bids, nothing, owner),
      )
