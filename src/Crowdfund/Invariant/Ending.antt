-- ===== src/Crowdfund/Invariant/Ending.antt =====
-- `transfer_tokens_and_send_funds` keeps the invariant, on all of its branches.
use flexible_pay_crowdfund_a.Base.{
  ℕ, ◌+◌, ◌<◌, ◌≡◌, refl, ap, sym, ◌∙◌, subst, not, Option, some, List, length, arith, ltb, ltb→lt,
  ◌==◌, eqb→eq, Bool-cases, inl, inr, take, drop, is_empty, length-take, length-drop,
}
use flexible_pay_crowdfund_a.Chain.Result.{
  ok, WhenOk, WhenOk-ok, WhenOk-bind, WhenOk-self, ensure, ensure-eq-ok, or_err, or_err-eq-ok,
  not_found, limit_must_not_be_zero,
}
use flexible_pay_crowdfund_a.Chain.Dict.{IsSorted}
use flexible_pay_crowdfund_a.Chain.Message.{AmpPkt, Response}
use flexible_pay_crowdfund_a.Chain.Merge.{merge_sub_msgs}
use flexible_pay_crowdfund_a.Chain.Deps.{Deps, Env, MessageInfo}
use flexible_pay_crowdfund_a.Crowdfund.State.{Store, State, Purchase}
use flexible_pay_crowdfund_a.Crowdfund.Refund.{
  operations, get_burn_messages, remove_all, clear_state,
}
use flexible_pay_crowdfund_a.Crowdfund.Transfer.{
  flat, last_purchasers, transfer_loop, trim_last, without_extra, transfer_tokens, pkt_or_new,
  funds_message, send_funds, finish_sale, transfer_tokens_and_send_funds,
}
use flexible_pay_crowdfund_a.Crowdfund.Transfer.Progress.{start_at, transfer_tokens-Advanced}
use flexible_pay_crowdfund_a.Crowdfund.Invariant.{IsValid, IsBalanced, IsLimited}
use flexible_pay_crowdfund_a.Crowdfund.Invariant.Lists.{remove_all-IsSorted}
use flexible_pay_crowdfund_a.Crowdfund.Invariant.Rounds.{Kept, transfer_loop-Kept, trim_last-Kept}

tokens-Kept :
    (deps : Deps) (store : Store) (state : State) (limit m : ℕ)
    → Kept m store.purchases
    → WhenOk
        (λ out. Kept m out.0.purchases × (out.0.available_tokens ≡ store.available_tokens))
        (transfer_tokens deps store state limit)
unfolding transfer_tokens
tokens-Kept deps store state limit m v =
    let After : Store × Response → Type 0 =
      λ out. Kept m out.0.purchases × (out.0.available_tokens ≡ store.available_tokens) in
    let read = take (limit + 1) (flat store.purchases) in
    let start = start_at store state in
    WhenOk-bind After (or_err store.config not_found) _ λ config _.
      WhenOk-bind After (last_purchasers read) _ λ ls _.
        WhenOk-bind After (deps.get_raw_address config.token_address) _ λ token _.
          let all = not (ls.0 == ls.1) in
          WhenOk-bind After (transfer_loop ls.0 all token (without_extra limit read) start) _
            λ r looped.
              let v' =
                WhenOk-ok (λ s. Kept m s.purchases) _
                  (transfer_loop-Kept m ls.0 all token (without_extra limit read) start v) looped in
              WhenOk-bind After (trim_last ls.0 r.number_of_last_purchases_removed r.purchases) _
                λ left trimmed.
                  let v'' =
                    WhenOk-ok (Kept m) _
                      (trim_last-Kept m ls.0 r.number_of_last_purchases_removed r.purchases v')
                      trimmed in
                  WhenOk-bind After (merge_sub_msgs r.rate_messages) _ λ rates _. (v'', refl)

take_and_drop : (n : ℕ) (ps : List Purchase) → length (take n ps) + length (drop n ps) ≡ length ps
take_and_drop n ps = omega (arith, length-take n ps, length-drop n ps)

abbrev ValidAfter : Store × Response → Type 0
ValidAfter out = IsValid out.0

-- A sale's part of the invariant.
IsValid-sale :
    {store : Store} {state : State}
    → store.state ≡ some state
    → IsValid store
    → IsBalanced (some state) (length (flat store.purchases))
      × IsLimited (some state) store.purchases
IsValid-sale {store} e v = (
  subst (λ o. IsBalanced o (length (flat store.purchases))) e v.balanced,
  subst (λ o. IsLimited o store.purchases) e v.limited,
)

tokens_valid :
    (deps : Deps) (store : Store) (state : State) (limit : ℕ)
    → 0 < limit
    → store.state ≡ some state
    → IsValid store
    → WhenOk ValidAfter (transfer_tokens deps store state limit)
tokens_valid deps store state limit positive e v =
    let (balance, (word, within)) = IsValid-sale e v in
    let kept : Kept state.max_amount_per_wallet store.purchases = record {
      sorted = v.sorted;
      owned = v.owned;
      within = within;
    } in
    let sum = take_and_drop limit (flat store.purchases) in
    WhenOk-self (transfer_tokens deps store state limit) λ out h.
      let a = transfer_tokens-Advanced deps store state limit positive v.sorted v.owned h in
      let (k, stock) =
        WhenOk-ok _ _ (tokens-Kept deps store state limit state.max_amount_per_wallet kept) h in
      record {
        sorted = k.sorted;
        owned = k.owned;
        stock = subst IsSorted (sym stock) v.stock;
        balanced = rw (a.counted, IsBalanced) (omega (arith, ap length a.rest, sum, balance));
        limited = rw (a.counted, IsLimited) (word, k.within);
      }

burning :
    (deps : Deps) (store : Store) (address limit : ℕ)
    → WhenOk
        (λ r.
          (ts : List ℕ) × (r.1
            ≡ record store { available_tokens = remove_all ts store.available_tokens }))
        (get_burn_messages deps store address limit)
unfolding get_burn_messages
burning deps store address limit = WhenOk-bind _ (or_err store.config not_found) _ λ config _.
    WhenOk-bind _ (deps.get_raw_address config.token_address) _
      λ token _. WhenOk-bind _ (deps.tokens token address limit) _ λ ts _. (ts, refl)

abbrev burned_of : List ℕ → Store → Store
burned_of ts store = record store { available_tokens = remove_all ts store.available_tokens }

-- Sending the funds changes nothing but the amount that is still to be sent.
record Sent (store : Store) (state : State) (out : Store × Response) : Type 0 where
  after : State
  stored : out.0 ≡ record store { state = some after }
  same_sold : after.amount_sold ≡ state.amount_sold
  same_transferred : after.amount_transferred ≡ state.amount_transferred
  same_max : after.max_amount_per_wallet ≡ state.max_amount_per_wallet

sending :
    (deps : Deps) (store : Store) (state : State) (pkt : AmpPkt)
    → store.state ≡ some state
    → WhenOk (Sent store state) (send_funds deps store state pkt)
unfolding send_funds
sending deps store state pkt e = elim (Bool-cases (ltb 0 state.amount_to_send)) [
  | inl due ↦
      rw (due, WhenOk)
        (WhenOk-bind (Sent store state) (funds_message deps store.ado state pkt) _ λ msg _. record {
          after = record state { amount_to_send = 0 };
          stored = refl;
          same_sold = refl;
          same_transferred = refl;
          same_max = refl;
        })
  | inr done ↦
      rw (done, WhenOk)
        (record {
          after = state;
          stored = ap (λ o. record store { state = o }) e;
          same_sold = refl;
          same_transferred = refl;
          same_max = refl;
        })
]

finish_valid :
    (deps : Deps) (env : Env) (store : Store) (state : State) (pkt : AmpPkt) (limit : ℕ)
    → store.state ≡ some state
    → state.amount_transferred ≡ state.amount_sold
    → IsValid store
    → WhenOk ValidAfter (finish_sale deps env store state pkt limit)
unfolding finish_sale clear_state
finish_valid deps env store state pkt limit e all_sent v =
    let (balance, (word, within)) = IsValid-sale e v in
    let none_left : length (flat store.purchases) ≡ 0 = omega arith in
    WhenOk-bind ValidAfter (send_funds deps store state pkt) _ λ r h.
      let s = WhenOk-ok (Sent store state) _ (sending deps store state pkt e) h in
      WhenOk-bind ValidAfter (get_burn_messages deps r.0 env.contract_address limit) _ λ b burned.
        let (ts, b_is) = WhenOk-ok _ _ (burning deps r.0 env.contract_address limit) burned in
        let final : b.1 ≡ record store {
          state = some s.after;
          available_tokens = remove_all ts store.available_tokens;
        } =
          b_is ∙ ap (burned_of ts) s.stored in
        let stock = remove_all-IsSorted ts store.available_tokens v.stock in
        elim (Bool-cases (is_empty b.0)) [
          | inl over ↦
              rw (over, final)
                (record {
                  sorted = v.sorted;
                  owned = v.owned;
                  stock = stock;
                  balanced = none_left;
                  limited = tt;
                })
          | inr more ↦
              rw (more, final)
                (record {
                  sorted = v.sorted;
                  owned = v.owned;
                  stock = stock;
                  balanced = omega (arith, s.same_sold, s.same_transferred);
                  limited = rw s.same_max (word, within);
                })
        ]

module _ (deps : Deps) (env : Env) (info : MessageInfo) (pkt : Option AmpPkt) (store : Store)
    (limit : Option ℕ) where
  rounds_valid :
      IsValid store
      → WhenOk ValidAfter (transfer_tokens_and_send_funds deps env info pkt store limit)
  unfolding transfer_tokens_and_send_funds
  rounds_valid v = WhenOk-bind ValidAfter (or_err store.state not_found) _ λ state found.
      WhenOk-bind ValidAfter (ensure (ltb 0 (operations limit)) limit_must_not_be_zero) _
        λ _ positive.
          let stored = or_err-eq-ok store.state not_found found in
          let some_room : 0 < operations limit =
            ltb→lt 0 (operations limit) (ensure-eq-ok _ limit_must_not_be_zero positive) in
          elim (Bool-cases (state.amount_transferred == state.amount_sold)) [
            | inl all_sent ↦ rw all_sent (
                finish_valid deps env store state (pkt_or_new pkt info env) (operations limit)
                  stored (eqb→eq state.amount_transferred state.amount_sold all_sent) v)
            | inr some_left ↦
                rw some_left (tokens_valid deps store state (operations limit) some_room stored v)
          ]

  -- A round of a successful sale keeps the invariant: one that transfers tokens, one that sends the
  -- funds and burns, and the last one, which clears the sale only when no purchase is left.
  pub transfer_tokens_and_send_funds-IsValid :
      {out : Store × Response}
      → IsValid store
      → transfer_tokens_and_send_funds deps env info pkt store limit ≡ ok out
      → IsValid out.0
  transfer_tokens_and_send_funds-IsValid v h =
      WhenOk-ok ValidAfter (transfer_tokens_and_send_funds deps env info pkt store limit)
        (rounds_valid v) h
