-- ===== src/Crowdfund/Transfer/Total.antt =====
-- A round of transfers does not fail: none of the indices and slices that it takes can panic.
use flexible_pay_crowdfund_a.Base.{
  ℕ, suc, ◌+◌, ◌≤◌, ◌<◌, ◌≡◌, refl, ap, ◌∙◌, subst, Bool, not, some, List, [], ◌∷◌, length, take,
  arith, length-take, take-take-suc, ◌==◌,
}
use flexible_pay_crowdfund_a.Chain.Result.{ok}
use flexible_pay_crowdfund_a.Chain.Uint.{u128_max, checked_add}
use flexible_pay_crowdfund_a.Chain.Dict.{IsSorted}
use flexible_pay_crowdfund_a.Chain.Message.{SubMsg, Response}
use flexible_pay_crowdfund_a.Chain.Merge.{merge_sub_msgs}
use flexible_pay_crowdfund_a.Chain.Deps.{Deps}
use flexible_pay_crowdfund_a.Chain.Result.{WhenOk-ok}
use flexible_pay_crowdfund_a.Crowdfund.State.{Config, Store, State, Purchase}
use flexible_pay_crowdfund_a.Crowdfund.Transfer.{
  flat, last_purchasers, Round, transfer_purchase, transfer_loop, trim_last, without_extra,
  transfer_tokens,
}
use flexible_pay_crowdfund_a.Crowdfund.Transfer.Blocks.{IsOwned}
use flexible_pay_crowdfund_a.Crowdfund.Transfer.Cut.{cut_lem}
use flexible_pay_crowdfund_a.Crowdfund.Transfer.Looped.{rates_of, transfer_loop-Looped}
use flexible_pay_crowdfund_a.Crowdfund.Transfer.Trim.{
  Mentions, last_purchaser-Mentions, without_extra-take, trim_rest,
}
use flexible_pay_crowdfund_a.Crowdfund.Transfer.Progress.{
  start_at, Advanced, transfer_tokens-Advanced,
}

last_purchasers_ok :
    (ps : List Purchase) → 0 < length ps → (ls : ℕ × ℕ) × (last_purchasers ps ≡ ok ls)
unfolding last_purchasers
last_purchasers_ok [] h = absurd (omega arith)
last_purchasers_ok (p ∷ []) h = ((p.purchaser, p.purchaser), refl)
last_purchasers_ok (p ∷ q ∷ []) h = ((p.purchaser, q.purchaser), refl)
last_purchasers_ok (p ∷ q ∷ r ∷ ps) h = last_purchasers_ok (q ∷ r ∷ ps) (omega arith)

transfer_purchase_ok :
    (l : ℕ) (all : Bool) (token : ℕ) (p : Purchase) (r : Round)
    → r.amount_transferred + 1 ≤ u128_max
    → (s : Round) × (transfer_purchase l all token p r ≡ ok s)
      × (s.amount_transferred ≡ r.amount_transferred + 1)
unfolding transfer_purchase
transfer_purchase_ok l all token p r h =
    let fits : checked_add u128_max r.amount_transferred 1 ≡ ok (r.amount_transferred + 1) =
      ground arith in
    rw fits (_, refl, refl)

transfer_loop_ok :
    (l : ℕ) (all : Bool) (token : ℕ) (ps : List Purchase) (r : Round)
    → r.amount_transferred + length ps ≤ u128_max
    → (s : Round) × (transfer_loop l all token ps r ≡ ok s)
unfolding transfer_loop
transfer_loop_ok l all token [] r h = (r, refl)
transfer_loop_ok l all token (p ∷ ps) r h =
    let (s, e, counted) = transfer_purchase_ok l all token p r (omega arith) in
    rw e (transfer_loop_ok l all token ps s (omega arith))

module _ (deps : Deps) (store : Store) (state : State) (limit : ℕ) (positive : 0 < limit)
    (sorted : IsSorted store.purchases) (own : IsOwned store.purchases) where
  -- While there are purchases, a round with a limit above zero succeeds, whatever they are: where the
  -- configuration is stored, the token contract's address resolves, the count stays in the range of
  -- `Uint128` and the rate messages can be merged. It transfers the first `limit` purchases, and
  -- leaves the others.
  pub transfer_tokens_total :
      {config : Config} {token : ℕ} {rates : List SubMsg}
      → store.config ≡ some config
      → deps.get_raw_address config.token_address ≡ ok token
      → 0 < length (flat store.purchases)
      → state.amount_transferred + limit ≤ u128_max
      → merge_sub_msgs (rates_of (take limit (flat store.purchases))) ≡ ok rates
      → (out : Store × Response) × (transfer_tokens deps store state limit ≡ ok out)
        × Advanced deps store state limit out
  unfolding transfer_tokens
  transfer_tokens_total {config} {token} {rates} configured resolved some_left fits merged =
      let ps = flat store.purchases in
      let read = take (limit + 1) ps in
      let (ls, asked) = last_purchasers_ok read (omega (arith, length-take (limit + 1) ps)) in
      let all = not (ls.0 == ls.1) in
      let start = start_at store state in
      let plus : limit + 1 ≡ suc limit = omega arith in
      let asked' = subst (λ n. last_purchasers (take n ps) ≡ ok ls) plus asked in
      let same : without_extra limit read ≡ take limit ps =
        ap (λ n. without_extra limit (take n ps)) plus ∙ without_extra-take limit ps in
      let (r, looped') =
        transfer_loop_ok ls.0 all token (take limit ps) start
          (omega (arith, length-take limit ps)) in
      let looped : transfer_loop ls.0 all token (without_extra limit read) start ≡ ok r =
        ap (λ qs. transfer_loop ls.0 all token qs start) same ∙ looped' in
      let l = WhenOk-ok _ _ (transfer_loop-Looped ls.0 all token (take limit ps) start) looped' in
      let named = subst (Mentions ls.0) (take-take-suc limit ps) (
        last_purchaser-Mentions limit (take (suc limit) ps) positive
          (omega (arith, length-take (suc limit) ps)) asked') in
      let (left, trimmed', _, _) =
        trim_rest ls.0 ls.1 limit store.purchases sorted own named
          (cut_lem limit store.purchases positive sorted own asked') in
      let trimmed : trim_last ls.0 r.number_of_last_purchases_removed r.purchases ≡ ok left =
        (λ i. trim_last ls.0 (l.removed i) (l.kept i)) ∙ trimmed' in
      let merged' : merge_sub_msgs r.rate_messages ≡ ok rates =
        ap merge_sub_msgs l.rates ∙ merged in
      let runs : (out : Store × Response) × (transfer_tokens deps store state limit ≡ ok out) =
        rw (configured, asked, resolved, looped, trimmed, merged') (_, refl) in
      (runs.0, runs.1, transfer_tokens-Advanced deps store state limit positive sorted own runs.1)
