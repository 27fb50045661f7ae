-- ===== src/Crowdfund/Transfer/Progress.antt =====
-- A round of transfers against its description on one queue: it takes the first purchases off, each
-- with its message, and leaves the rest in order.
use flexible_pay_crowdfund_a.Base.{
  ℕ, suc, ◌+◌, ◌≤◌, ◌<◌, ◌≡◌, ap, ◌∙◌, sym, subst, not, some, List, [], ◌∷◌, ◌++◌, map, length,
  take, drop, arith, length-take, take-take-suc, drop_all, ◌==◌,
}
use flexible_pay_crowdfund_a.Chain.Result.{
  ok_injective, ok, WhenOk, WhenOk-ok, WhenOk-bind, or_err, not_found,
}
use flexible_pay_crowdfund_a.Chain.Dict.{Dict, IsSorted, may_load}
use flexible_pay_crowdfund_a.Chain.Message.{SubMsg, Response, add_messages}
use flexible_pay_crowdfund_a.Chain.Merge.{merge_sub_msgs}
use flexible_pay_crowdfund_a.Chain.Deps.{Deps}
use flexible_pay_crowdfund_a.Crowdfund.State.{Store, State, Purchase}
use flexible_pay_crowdfund_a.Crowdfund.Transfer.{
  flat, last_purchasers, Round, transfer_msg, transfer_loop, trim_last, without_extra,
  transfer_tokens,
}
use flexible_pay_crowdfund_a.Crowdfund.Transfer.Blocks.{IsOwned}
use flexible_pay_crowdfund_a.Crowdfund.Transfer.Cut.{cut_lem}
use flexible_pay_crowdfund_a.Crowdfund.Transfer.Looped.{rates_of, Looped, transfer_loop-Looped}
use flexible_pay_crowdfund_a.Crowdfund.Transfer.Trim.{
  Mentions, last_purchaser-Mentions, without_extra-take, trim_rest,
}

-- What a round leaves: the purchases behind those it took, and their number in the sale; and what it
-- answers: a transfer of each token taken, in order, then the merged messages of their rates.
pub record Advanced (deps : Deps) (store : Store) (state : State) (limit : ℕ)
    (out : Store × Response) : Type 0 where
  pub token : ℕ
  pub rates : List SubMsg
  pub rest : flat out.0.purchases ≡ drop limit (flat store.purchases)
  pub counted :
      out.0.state
      ≡ some (record state {
        amount_transferred = state.amount_transferred + length (take limit (flat store.purchases));
      })
  pub merged : merge_sub_msgs (rates_of (take limit (flat store.purchases))) ≡ ok rates
  pub sent :
      out.1
      ≡ add_messages [] (map (transfer_msg token) (take limit (flat store.purchases))) ++ rates

-- An entry of a map without purchases is empty.
entry_of_empty :
    (l : ℕ) (qs : List Purchase) (d : Dict (List Purchase))
    → may_load l d ≡ some qs
    → flat d ≡ []
    → qs ≡ []
entry_of_empty l qs [] found e = cc
entry_of_empty l qs ((k, []) ∷ d) found e = ground (arith, entry_of_empty l qs d)
entry_of_empty l qs ((k, p ∷ ps) ∷ d) found e = cc

abbrev pub start_at : Store → State → Round
start_at store state = record {
  purchases = store.purchases;
  number_of_last_purchases_removed = 0;
  rate_messages = [];
  transfer_msgs = [];
  amount_transferred = state.amount_transferred;
}

module _ (deps : Deps) (store : Store) (state : State) (limit : ℕ) (positive : 0 < limit)
    (sorted : IsSorted store.purchases) (own : IsOwned store.purchases) where
  -- The loop runs over the first `limit` purchases, and what it and the trimming leave is the rest.
  round_parts :
      (ls : ℕ × ℕ) {token : ℕ} {r : Round} {left : Dict (List Purchase)}
      → let read = take (limit + 1) (flat store.purchases) in
        let all = not (ls.0 == ls.1) in
        let start = start_at store state in
        transfer_loop ls.0 all token (without_extra limit read) start ≡ ok r
        → last_purchasers read ≡ ok ls
        → trim_last ls.0 r.number_of_last_purchases_removed r.purchases ≡ ok left
        → (flat left ≡ drop limit (flat store.purchases))
          × Looped ls.0 all token (take limit (flat store.purchases)) start r
          × (ls.0 ≡ ls.1 → (qs : List Purchase) × (may_load ls.0 left ≡ some qs))
  round_parts ls {token} {r} {left} looped asked trimmed =
      let ps = flat store.purchases in
      let plus : limit + 1 ≡ suc limit = omega arith in
      let asked' = subst (λ n. last_purchasers (take n ps) ≡ ok ls) plus asked in
      let same : without_extra limit (take (limit + 1) ps) ≡ take limit ps =
        ap (λ n. without_extra limit (take n ps)) plus ∙ without_extra-take limit ps in
      let l =
        WhenOk-ok _ _
          (transfer_loop-Looped ls.0 (not (ls.0 == ls.1)) token (take limit ps)
            (start_at store state))
          (subst
            (λ qs. transfer_loop ls.0 (not (ls.0 == ls.1)) token qs (start_at store state) ≡ ok r)
            same looped) in
      let named = subst (Mentions ls.0) (take-take-suc limit ps) (
        last_purchaser-Mentions limit (take (suc limit) ps) positive
          (omega (arith, length-take (suc limit) ps)) asked') in
      let (left', trimmed', rest, entry) =
        trim_rest ls.0 ls.1 limit store.purchases sorted own named
          (cut_lem limit store.purchases positive sorted own asked') in
      let agree : trim_last ls.0 r.number_of_last_purchases_removed r.purchases ≡ ok left' =
        (λ i. trim_last ls.0 (l.removed i) (l.kept i)) ∙ trimmed' in
      let same_left : left ≡ left' = ok_injective (sym trimmed ∙ agree) in
      (
        ap flat same_left ∙ rest,
        l,
        λ twice. let (qs, found) = entry twice in (qs, ap (may_load ls.0) same_left ∙ found),
      )

  -- A round, and the entry that is left of a buyer who made the last two purchases read.
  record RoundDone (out : Store × Response) : Type 0 where
    advanced : Advanced deps store state limit out
    last_entry :
        (l : ℕ)
        → last_purchasers (take (limit + 1) (flat store.purchases)) ≡ ok (l, l)
        → (qs : List Purchase) × (may_load l out.0.purchases ≡ some qs)

  round-Advanced : WhenOk RoundDone (transfer_tokens deps store state limit)
  unfolding transfer_tokens
  round-Advanced =
      let After = RoundDone in
      let read = take (limit + 1) (flat store.purchases) in
      WhenOk-bind After (or_err store.config not_found) _ λ config _.
        WhenOk-bind After (last_purchasers read) _ λ ls asked.
          WhenOk-bind After (deps.get_raw_address config.token_address) _ λ token _.
            let all = not (ls.0 == ls.1) in
            let start = start_at store state in
            WhenOk-bind After (transfer_loop ls.0 all token (without_extra limit read) start) _
              λ r looped.
                WhenOk-bind After (trim_last ls.0 r.number_of_last_purchases_removed r.purchases) _
                  λ left trimmed.
                    WhenOk-bind After (merge_sub_msgs r.rate_messages) _ λ rates merged.
                      let (rest, looped', entry) = round_parts ls looped asked trimmed in
                      record {
                        advanced = record {
                          token = token;
                          rates = rates;
                          rest = rest;
                          counted =
                              ap (λ n. some (record state { amount_transferred = n }))
                                looped'.counted;
                          merged = ap merge_sub_msgs (sym looped'.rates) ∙ merged;
                          sent = ap (λ ms. add_messages [] ms ++ rates) looped'.transfers;
                        };
                        last_entry = λ l twice.
                            let both = ok_injective (sym asked ∙ twice) in
                            let first : ls.0 ≡ l = ap (λ p. p.0) both in
                            let (qs, found) = entry (first ∙ sym (ap (λ p. p.1) both)) in
                            (qs, subst (λ j. may_load j left ≡ some qs) first found);
                      }

  -- A round of a successful sale, with a limit above zero, over purchases kept under their buyers'
  -- keys: it transfers the first `limit` purchases in the order of the keys, one message each and in
  -- that order, followed by their merged rate messages; exactly the purchases behind those stay
  -- stored, and the sale counts those that went.
  pub transfer_tokens-Advanced :
      {out : Store × Response}
      → transfer_tokens deps store state limit ≡ ok out
      → Advanced deps store state limit out
  transfer_tokens-Advanced h =
      (WhenOk-ok RoundDone (transfer_tokens deps store state limit) round-Advanced h).advanced

  -- The last round of a sale, where one buyer made the last two purchases (or the only one): the
  -- buyer's entry stays stored, with no purchase in it.
  pub transfer_tokens_strands :
      (l : ℕ) {out : Store × Response}
      → length (flat store.purchases) ≤ limit
      → last_purchasers (take (limit + 1) (flat store.purchases)) ≡ ok (l, l)
      → transfer_tokens deps store state limit ≡ ok out
      → may_load l out.0.purchases ≡ some []
  transfer_tokens_strands l fits twice h =
      let done = WhenOk-ok RoundDone (transfer_tokens deps store state limit) round-Advanced h in
      let (qs, found) = done.last_entry l twice in
      let nothing = done.advanced.rest ∙ drop_all limit (flat store.purchases) fits in
      found ∙ ap some (entry_of_empty l qs _ found nothing)
