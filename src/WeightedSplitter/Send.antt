-- ===== src/WeightedSplitter/Send.antt =====
-- Sending funds through a splitter by weights: everything goes out.
use flexible_pay_crowdfund_a.Base.{
  ℕ, ◌+◌, ◌≡◌, refl, not, List, [], ◌∷◌, ◌++◌, arith, is_empty, length, ltb,
}
use flexible_pay_crowdfund_a.Chain.Result.{
  ok, WhenOk, WhenOk-mono, WhenOk-ok, WhenOk-bind, ensure, or_err, not_found, invalid_funds,
  exceeds_max_allowed_coins,
}
use flexible_pay_crowdfund_a.Chain.Uint.{checked_sub, checked_sub-eq-ok}
use flexible_pay_crowdfund_a.Chain.Coin.{Coin}
use flexible_pay_crowdfund_a.Chain.Coin.Totals.{amount_of}
use flexible_pay_crowdfund_a.Chain.Message.{Response}
use flexible_pay_crowdfund_a.Chain.Outflow.{outflows, outflows-append, generate_direct_msg-outflow}
use flexible_pay_crowdfund_a.Chain.Deps.{Deps, MessageInfo}
use flexible_pay_crowdfund_a.Ado.Recipient.{generate_direct_msg}
use flexible_pay_crowdfund_a.Splitter.Handlers.{positive, give_back}
use flexible_pay_crowdfund_a.Splitter.Shares.{SameDenoms, SameDenoms-self}
use flexible_pay_crowdfund_a.Splitter.Send.{amount_of-positive, give_back-outflows}
use flexible_pay_crowdfund_a.WeightedSplitter.Recipients.{AddressWeight, Store, add_weights}
use flexible_pay_crowdfund_a.WeightedSplitter.Handlers.{share, take_shares, split, execute_send}

module _ (d : ℕ) where
  -- What a round takes is no longer there afterwards, and nothing else is missing.
  abbrev Moved : List Coin → List Coin → List Coin × List Coin → Type 0
  Moved cs rs out = (amount_of d out.1 + amount_of d out.0 ≡ amount_of d rs) × SameDenoms cs out.1

  take_shares-Moved :
      (weight total : ℕ) (cs rs : List Coin)
      → SameDenoms cs rs
      → WhenOk (Moved cs rs) (take_shares weight total cs rs)
  unfolding take_shares
  take_shares-Moved weight total [] [] h = (refl, tt)
  take_shares-Moved weight total [] (r ∷ rs) h = absurd h
  take_shares-Moved weight total (c ∷ cs) [] h = absurd h
  take_shares-Moved weight total (c ∷ cs) (r ∷ rs) (denom, h) =
      let After = Moved (c ∷ cs) (r ∷ rs) in
      WhenOk-bind After (share c.amount weight total) _ λ amount _.
        WhenOk-bind After (checked_sub r.amount amount) _ λ left f.
          WhenOk-bind After (take_shares weight total cs rs) _ λ out g.
            let (others, same) =
              WhenOk-ok (Moved cs rs) _ (take_shares-Moved weight total cs rs h) g in
            let (whole, _) = checked_sub-eq-ok r.amount amount f in
            (ground (arith, denom, whole, others), (denom, same))

  split-kept :
      (deps : Deps) (funds : List Coin) (total : ℕ) (xs : List AddressWeight)
      (acc : List Coin × Response)
      → SameDenoms funds acc.0
      → WhenOk
          (λ out. amount_of d out.0 + outflows d out.1 ≡ amount_of d acc.0 + outflows d acc.1)
          (split deps funds total xs acc)
  unfolding split
  split-kept deps funds total [] acc h = refl
  split-kept deps funds total (x ∷ xs) (remainder, msgs) h =
      let After : List Coin × Response → Type 0 =
        λ out. amount_of d out.0 + outflows d out.1 ≡ amount_of d remainder + outflows d msgs in
      WhenOk-bind After (take_shares x.weight total funds remainder) _ λ taken e.
        WhenOk-bind After (generate_direct_msg deps x.recipient taken.0) _ λ m f.
          let (moved, same) =
            WhenOk-ok (Moved funds remainder) _ (take_shares-Moved x.weight total funds remainder h)
              e in
          let sent = generate_direct_msg-outflow deps d x.recipient taken.0 f in
          let both = outflows-append d msgs (m ∷ []) in
          WhenOk-mono _ After (λ out k. omega (arith, moved, sent, both, k))
            (split deps funds total xs (taken.1, msgs ++ m ∷ []))
            (split-kept deps funds total xs (taken.1, msgs ++ m ∷ []) same)

  -- Sending through a splitter by weights sends out exactly what came in, in every denomination, and
  -- changes nothing in the storage.
  pub execute_send-outflows :
      (deps : Deps) (info : MessageInfo) (store : Store) {out : Store × Response}
      → execute_send deps info store ≡ ok out
      → (outflows d out.1 ≡ amount_of d info.funds) × (out.0 ≡ store)
  unfolding execute_send
  execute_send-outflows deps info store h =
      let After : Store × Response → Type 0 =
        λ out. (outflows d out.1 ≡ amount_of d info.funds) × (out.0 ≡ store) in
      WhenOk-ok After (execute_send deps info store)
        (WhenOk-bind After (ensure (not (is_empty info.funds)) invalid_funds) _ λ _ _.
          WhenOk-bind After (ensure (ltb (length info.funds) 5) exceeds_max_allowed_coins) _ λ _ _.
            WhenOk-bind After (or_err store.splitter not_found) _ λ splitter _.
              WhenOk-bind After (add_weights splitter.recipients 0) _ λ total _.
                WhenOk-bind After (split deps info.funds total splitter.recipients (info.funds, []))
                  _
                  λ s e.
                    let all =
                      WhenOk-ok _ _
                        (split-kept deps info.funds total splitter.recipients (info.funds, [])
                          (SameDenoms-self info.funds))
                        e in
                    let nothing = amount_of-positive d s.0 in
                    let back = give_back-outflows d info.sender (positive s.0) in
                    let both = outflows-append d s.1 (give_back info.sender (positive s.0)) in
                    (omega (arith, all, nothing, back, both), refl))
        h
