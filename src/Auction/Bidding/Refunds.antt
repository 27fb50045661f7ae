-- ===== src/Auction/Bidding/Refunds.antt =====
-- Who has paid what once a row of bids on one token has been placed.
use flexible_pay_crowdfund_a.Base.{
  ℕ, ◌+◌, ◌≡◌, refl, ap, subst, ◌∙◌, sym, List, [], ◌∷◌, ◌++◌, arith, ◌==◌, if◌then◌else◌, eqb_self,
}
use flexible_pay_crowdfund_a.Chain.Result.{
  Result, ok, ◌>>=◌, WhenOk, WhenOk-ok, WhenOk-bind, ok_injective,
}
use flexible_pay_crowdfund_a.Chain.Coin.{Coin, single_coin}
use flexible_pay_crowdfund_a.Chain.Coin.Totals.{amount_of}
use flexible_pay_crowdfund_a.Chain.Dict.{save}
use flexible_pay_crowdfund_a.Chain.Message.{
  CosmosMsg, bank_send, wasm_execute, staking, distribution, gov_vote, other, Response,
  add_messages,
}
use flexible_pay_crowdfund_a.Chain.Deps.{Deps, Env, MessageInfo}
use flexible_pay_crowdfund_a.Auction.State.{TokenAuctionState, Store}
use flexible_pay_crowdfund_a.Auction.Handlers.{refund_high_bid, execute_place_bid}
use flexible_pay_crowdfund_a.Auction.Bidding.{
  saved-IsCurrent, execute_place_bid-Placed, IsCurrent, IsCurrent-get_existing, with_bid,
}

-- What the bank messages of a response send to an address.
abbrev pub native_to : ℕ → ℕ → CosmosMsg → ℕ
native_to a d (bank_send b coins) = if b == a then amount_of d coins else 0
native_to a d (wasm_execute b m coins) = 0
native_to a d (staking m) = 0
native_to a d (distribution m) = 0
native_to a d (gov_vote p v) = 0
native_to a d (other m) = 0

abbrev pub sent_to : ℕ → ℕ → Response → ℕ
sent_to a d [] = 0
sent_to a d (m ∷ ms) = native_to a d m.msg + sent_to a d ms

pub sent_to-append :
    (a d : ℕ) (r s : Response) → sent_to a d (r ++ s) ≡ sent_to a d r + sent_to a d s
sent_to-append a d [] s = omega arith
sent_to-append a d (m ∷ r) s = ground (arith, sent_to-append a d r s)

-- What an address has at stake: the highest bid, if it is its own.
abbrev pub stake : ℕ → TokenAuctionState → ℕ
stake a state = if state.high_bidder_addr == a then state.high_bidder_amount else 0

abbrev pub Call : Type 0
Call = Env × MessageInfo

-- Bids in succession, each in its block, with all that is sent back on the way.
abbrev pub place_bids : Deps → ℕ → ℕ → Store → List Call → Result (Store × Response)
place_bids deps token_id token_address store [] = ok (store, [])
place_bids deps token_id token_address store (call ∷ calls) =
    execute_place_bid deps call.0 call.1 store token_id token_address >>= λ placed.
    place_bids deps token_id token_address placed.0 calls >>= λ rest.
    ok (rest.0, placed.1 ++ rest.1)

-- What an address has paid in the calls of a row.
abbrev pub paid_by : ℕ → ℕ → List Call → ℕ
paid_by a d [] = 0
paid_by a d (call ∷ calls) =
    (if call.1.sender == a then amount_of d call.1.funds else 0) + paid_by a d calls

single_coin-amount_of :
    (d : ℕ) (funds : List Coin) {payment : Coin}
    → single_coin funds ≡ ok payment
    → amount_of d funds ≡ (if payment.denom == d then payment.amount else 0)
unfolding single_coin
single_coin-amount_of d [] h = cc
single_coin-amount_of d (c ∷ []) {payment} h =
    let same : c ≡ payment = ok_injective h in
    let alone : amount_of d (c ∷ []) ≡ (if c.denom == d then c.amount else 0) = omega arith in
    alone ∙ ap (λ p. if p.denom == d then p.amount else 0) same
single_coin-amount_of d (c ∷ e ∷ cs) h = cc

-- The highest bid goes back to its bidder, and to nobody else.
pub refund-stake :
    (a : ℕ) (state : TokenAuctionState)
    → sent_to a state.coin_denom (add_messages [] (refund_high_bid state)) ≡ stake a state
refund-stake a state = ground (arith, eqb_self state.coin_denom)

-- An auction with another highest bid.
abbrev pub with_highest : TokenAuctionState → TokenAuctionState → TokenAuctionState
with_highest final state = record state {
  high_bidder_addr = final.high_bidder_addr;
  high_bidder_amount = final.high_bidder_amount;
}

module _ (deps : Deps) (token_id token_address : ℕ) where
  -- What a bid on the current auction leaves.
  record Continued (call : Call) (store : Store) (state : TokenAuctionState)
      (out : Store × Response) : Type 0 where
    after : TokenAuctionState
    current : IsCurrent deps token_id token_address out.0 after
    same_terms : after ≡ with_highest after state
    same_ado : out.0.ado ≡ store.ado
    settled :
        (a : ℕ)
        → sent_to a state.coin_denom out.1 + stake a after
          ≡ stake a state
            + (if call.1.sender == a then amount_of state.coin_denom call.1.funds else 0)

  placed-Continued :
      (call : Call) (store : Store) (state : TokenAuctionState) (out : Store × Response)
      → IsCurrent deps token_id token_address store state
      → execute_place_bid deps call.0 call.1 store token_id token_address ≡ ok out
      → Continued call store state out
  placed-Continued call store state out c h =
      let p = execute_place_bid-Placed deps token_id token_address call.0 call.1 store h in
      let before : p.before ≡ state =
        ok_injective
          (sym p.current ∙ IsCurrent-get_existing deps token_id token_address store state c) in
      let after : TokenAuctionState = with_bid call.1 p.payment state in
      let d = state.coin_denom in
      let denom : p.payment.denom ≡ d = p.passes.denom ∙ ap (λ s. s.coin_denom) before in
      let paid : (a : ℕ)
          → stake a after ≡ (if call.1.sender == a then amount_of d call.1.funds else 0) =
        λ a.
          let funds = single_coin-amount_of d call.1.funds p.passes.one_coin in
          ground (arith, funds, denom) in
      let back : (a : ℕ) → sent_to a d out.1 ≡ stake a state = λ a.
        ap (sent_to a d) (p.refunded ∙ ap (λ s. add_messages [] (refund_high_bid s)) before)
        ∙ refund-stake a state in
      record {
        after = after;
        current =
            saved-IsCurrent deps token_id token_address store out.0 state after c refl
              (ap (λ s. s.auction_infos) p.written)
              (ap (λ s. s.token_auction_state) p.written ∙ (λ i.
                save (before i).auction_id (with_bid call.1 p.payment (before i))
                  store.token_auction_state));
        same_terms = refl;
        same_ado = ap (λ s. s.ado) p.written;
        settled = λ a. λ i. back a i + paid a i;
      }

  -- What a row of bids leaves.
  pub record Settled (store : Store) (state : TokenAuctionState) (calls : List Call)
      (out : Store × Response) : Type 0 where
    pub final : TokenAuctionState
    pub current : IsCurrent deps token_id token_address out.0 final
    pub same_terms : final ≡ with_highest final state
    pub same_ado : out.0.ado ≡ store.ado
    pub settled :
        (a : ℕ)
        → sent_to a state.coin_denom out.1 + stake a final
          ≡ stake a state + paid_by a state.coin_denom calls

  all-Settled :
      (store : Store) (state : TokenAuctionState) (calls : List Call)
      → IsCurrent deps token_id token_address store state
      → WhenOk (Settled store state calls) (place_bids deps token_id token_address store calls)
  all-Settled store state [] c = record {
    final = state;
    current = c;
    same_terms = refl;
    same_ado = refl;
    settled = λ a. omega arith;
  }
  all-Settled store state (call ∷ calls) c =
      let After = Settled store state (call ∷ calls) in
      let d = state.coin_denom in
      WhenOk-bind After (execute_place_bid deps call.0 call.1 store token_id token_address) _
        λ placed e.
          let first = placed-Continued call store state placed c e in
          WhenOk-bind After (place_bids deps token_id token_address placed.0 calls) _ λ rest h.
            let others =
              WhenOk-ok (Settled placed.0 first.after calls) _
                (all-Settled placed.0 first.after calls first.current) h in
            record {
              final = others.final;
              current = others.current;
              same_terms = others.same_terms ∙ ap (with_highest others.final) first.same_terms;
              same_ado = others.same_ado ∙ first.same_ado;
              settled = λ a.
                  let one = first.settled a in
                  let more : sent_to a d rest.1 + stake a others.final
                      ≡ stake a first.after + paid_by a d calls =
                    subst
                      (λ n.
                        sent_to a n rest.1 + stake a others.final
                        ≡ stake a first.after + paid_by a n calls)
                      (ap (λ s. s.coin_denom) first.same_terms) (others.settled a) in
                  let both = sent_to-append a d placed.1 rest.1 in omega (arith, one, more, both);
            }

  -- Once any row of bids on a token's current auction has been placed, every address has got back
  -- all that it paid in the auction's denomination, except for what the highest bidder then has at
  -- stake, who has got back the rest; what was at stake before the row counts as paid.
  pub place_bids-Settled :
      (store : Store) (state : TokenAuctionState) (calls : List Call) {out : Store × Response}
      → IsCurrent deps token_id token_address store state
      → place_bids deps token_id token_address store calls ≡ ok out
      → Settled store state calls out
  place_bids-Settled store state calls c h =
      WhenOk-ok (Settled store state calls) (place_bids deps token_id token_address store calls)
        (all-Settled store state calls c) h
