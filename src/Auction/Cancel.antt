-- ===== src/Auction/Cancel.antt =====
-- Cancelling an auction: `execute_cancel` of
-- contracts/non-fungible-tokens/andromeda-auction/src/contract.rs, and the calls after it.
use flexible_pay_crowdfund_a.Base.{
  ℕ, ◌+◌, ◌≡◌, refl, ap, ◌∙◌, sym, true, false, eqb_self, [], ◌∷◌, ◌++◌, arith, ◌==◌,
}
use flexible_pay_crowdfund_a.Chain.Result.{ok, err, ok_injective, auction_cancelled}
use flexible_pay_crowdfund_a.Chain.Message.{Response, add_messages, new_sub_msg}
use flexible_pay_crowdfund_a.Chain.Deps.{Deps, Env, MessageInfo}
use flexible_pay_crowdfund_a.Auction.State.{TokenAuctionState, Store}
use flexible_pay_crowdfund_a.Auction.Handlers.{
  check_bid, execute_place_bid, execute_cancel, nft_msg, refund_high_bid,
}
use flexible_pay_crowdfund_a.Auction.Bidding.{IsCurrent, IsCurrent-get_existing, saved-IsCurrent}
use flexible_pay_crowdfund_a.Auction.Bidding.Refunds.{sent_to, sent_to-append, stake, refund-stake}
use flexible_pay_crowdfund_a.Auction.Invariant.{IsValid, get_existing-Found}
use flexible_pay_crowdfund_a.Auction.Invariant.Handlers.{cancelled, execute_cancel-Cancelled}

no_coins : (n : ℕ) → 0 + n ≡ n
no_coins n = omega arith

module _ (deps : Deps) (env : Env) (info : MessageInfo) (store : Store)
    (token_id token_address : ℕ) where
  -- The state after a cancellation of the current auction, and what it sends.
  pub record Closed (out : Store × Response) : Type 0 where
    pub before : TokenAuctionState
    pub was_current : IsCurrent deps token_id token_address store before
    pub by_owner : info.sender ≡ before.owner
    pub current : IsCurrent deps token_id token_address out.0 (cancelled before)
    pub answered :
        out.1
        ≡ new_sub_msg (nft_msg before token_id before.owner)
          ∷ add_messages [] (refund_high_bid before)
    pub refunded : (a : ℕ) → sent_to a before.coin_denom out.1 ≡ stake a before

  -- Only the owner of an auction cancels it; the token goes back to the owner, the highest bidder
  -- gets the highest bid and nobody else anything, and the auction stays the token's current one,
  -- marked as cancelled.
  pub execute_cancel-Closed :
      {out : Store × Response}
      → IsValid store
      → execute_cancel deps env info store token_id token_address ≡ ok out
      → Closed out
  execute_cancel-Closed {out} v h =
      let p = execute_cancel-Cancelled deps env info store token_id token_address h in
      let f = get_existing-Found deps token_id token_address store v p.current in
      let answered : out.1
          ≡ new_sub_msg (nft_msg p.before token_id p.before.owner)
            ∷ add_messages [] (refund_high_bid p.before) =
        p.answered
        ∙ ap (λ o. add_messages [] (nft_msg p.before token_id o ∷ refund_high_bid p.before))
            p.by_owner in
      record {
        before = p.before;
        was_current = f.current;
        by_owner = p.by_owner;
        current =
            saved-IsCurrent deps token_id token_address store out.0 p.before (cancelled p.before)
              f.current refl (ap (λ s. s.auction_infos) p.written)
              (ap (λ s. s.token_auction_state) p.written);
        answered = answered;
        refunded = λ a.
            ap (sent_to a p.before.coin_denom) answered
            ∙ no_coins (sent_to a p.before.coin_denom (add_messages [] (refund_high_bid p.before)))
            ∙ refund-stake a p.before;
      }

  -- After a cancellation every bid is refused.
  pub execute_cancel-execute_place_bid :
      (later : Env) (bid : MessageInfo) {out : Store × Response}
      → IsValid store
      → execute_cancel deps env info store token_id token_address ≡ ok out
      → execute_place_bid deps later bid out.0 token_id token_address ≡ err auction_cancelled
  unfolding execute_place_bid check_bid
  execute_cancel-execute_place_bid later bid {out} v h =
      let c = execute_cancel-Closed v h in
      rw (IsCurrent-get_existing deps token_id token_address out.0 (cancelled c.before) c.current)
        refl

  -- But the handler does not look whether the auction is cancelled: in the same block, the same call
  -- succeeds again, with the same answer. The messages of the two answers together send the highest
  -- bidder twice the highest bid, and nobody else anything. That the chain carries out the second
  -- answer needs the token to be with the contract again, since its first message sends the token
  -- away.
  pub execute_cancel_again :
      {out : Store × Response}
      → IsValid store
      → execute_cancel deps env info store token_id token_address ≡ ok out
      → (before : TokenAuctionState) × (again : Store × Response) × IsCurrent deps token_id
          token_address store before
        × (execute_cancel deps env info out.0 token_id token_address ≡ ok again)
        × (again.1 ≡ out.1)
        × ((a : ℕ)
            → sent_to a before.coin_denom (out.1 ++ again.1) ≡ stake a before + stake a before)
  unfolding execute_cancel
  execute_cancel_again {out} v h =
      let p = execute_cancel-Cancelled deps env info store token_id token_address h in
      let c = execute_cancel-Closed v h in
      let same : c.before ≡ p.before = ok_injective (
        sym (IsCurrent-get_existing deps token_id token_address store c.before c.was_current)
        ∙ p.current) in
      let owner : (info.sender == c.before.owner) ≡ true =
        ap (λ o. info.sender == o) (sym c.by_owner) ∙ eqb_self info.sender in
      let going : deps.is_expired c.before.end_time env.block ≡ false =
        ap (λ s. deps.is_expired s.end_time env.block) same ∙ p.not_ended in
      let second : Response =
        add_messages [] (nft_msg c.before token_id info.sender ∷ refund_high_bid c.before) in
      let answer : second ≡ out.1 =
        ap (λ s. add_messages [] (nft_msg s token_id info.sender ∷ refund_high_bid s)) same
        ∙ sym p.answered in
      rw
        (
          p.no_funds,
          IsCurrent-get_existing deps token_id token_address out.0 (cancelled c.before) c.current,
          owner,
          going,
        )
        (
          c.before,
          _,
          c.was_current,
          refl,
          answer,
          λ a.
              let both = sent_to-append a c.before.coin_denom out.1 second in
              let one = c.refunded a in
              let two = ap (sent_to a c.before.coin_denom) answer in omega (arith, both, one, two),
        )
