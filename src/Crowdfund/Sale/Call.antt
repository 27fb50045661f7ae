-- ===== src/Crowdfund/Sale/Call.antt =====
-- What the two ways to buy have in common: a call of `purchase_tokens` for the ongoing sale and the
-- sender's purchases, within the wallet's limit, and the writes after it.
use flexible_pay_crowdfund_a.Base.{
  ℕ, ◌+◌, ◌%◌, ◌^◌, ◌≤◌, ◌≡◌, refl, Bool, true, false, not, Option, none, some, List, [], ◌∷◌,
  length, unwrap_or, ltb, ltb→lt, arith,
}
use flexible_pay_crowdfund_a.Chain.Result.{
  ok, WhenOk, WhenOk-ok, WhenOk-bind, ensure, ensure-eq-ok, or_err, or_err-eq-ok, no_ongoing_sale,
  token_not_available, purchase_limit_reached,
}
use flexible_pay_crowdfund_a.Chain.Uint.{sub_or_panic}
use flexible_pay_crowdfund_a.Chain.Coin.{deduct_funds}
use flexible_pay_crowdfund_a.Chain.Dict.{may_load, has}
use flexible_pay_crowdfund_a.Chain.Message.{Response}
use flexible_pay_crowdfund_a.Chain.Deps.{Deps, Env, MessageInfo}
use flexible_pay_crowdfund_a.Crowdfund.State.{Store, State, Purchase, get_available_tokens}
use flexible_pay_crowdfund_a.Crowdfund.Available.{get_available_tokens-le}
use flexible_pay_crowdfund_a.Crowdfund.Sale.{
  Bought, wanted, purchase_tokens, ongoing_sale, max_possible, save_purchases, execute_purchase,
  execute_purchase_by_token_id,
}

abbrev pub wallet : ℕ → Store → List Purchase
wallet buyer store = unwrap_or (may_load buyer store.purchases) []

pub record Buys (deps : Deps) (env : Env) (info : MessageInfo) (store : Store)
    (out : Store × Response) : Type 0 where
  pub state : State
  pub ids : List ℕ
  pub bought : Bought
  pub ongoing : store.state ≡ some state
  pub open_still : deps.is_expired state.end_time env.block ≡ false
  pub call : purchase_tokens deps store ids info state (wallet info.sender store) ≡ ok bought
  pub below_limit :
      length ids + length (wallet info.sender store) % 2 ^ 32 ≤ state.max_amount_per_wallet
  pub saved : out.0 ≡ save_purchases info.sender bought

sub_or_panic-eq-ok : (a b : ℕ) {r : ℕ} → sub_or_panic a b ≡ ok r → r + b ≡ a
sub_or_panic-eq-ok a b h = ground arith

wanted-le : (n : Option ℕ) (limit : ℕ) → wanted n limit ≤ limit
wanted-le none limit = omega arith
wanted-le (some n) limit = omega arith

not-true : (b : Bool) → not b ≡ true → b ≡ false
not-true true h = cc
not-true false h = refl

module _ (deps : Deps) (env : Env) (info : MessageInfo) (store : Store) where
  ongoing_sale-WhenOk :
      WhenOk
        (λ s. (store.state ≡ some s) × (deps.is_expired s.end_time env.block ≡ false))
        (ongoing_sale deps env store)
  unfolding ongoing_sale
  ongoing_sale-WhenOk =
      let After : State → Type 0 =
        λ s. (store.state ≡ some s) × (deps.is_expired s.end_time env.block ≡ false) in
      WhenOk-bind After (or_err store.state no_ongoing_sale) _ λ s found.
        WhenOk-bind After (ensure (not (deps.is_expired s.end_time env.block)) no_ongoing_sale) _
          λ _ live. (
            or_err-eq-ok store.state no_ongoing_sale found,
            not-true _ (ensure-eq-ok _ no_ongoing_sale live),
          )

  by_token_id :
      (t : ℕ)
      → WhenOk (Buys deps env info store) (execute_purchase_by_token_id deps env info store t)
  unfolding execute_purchase_by_token_id max_possible
  by_token_id t =
      let After = Buys deps env info store in
      let mine = wallet info.sender store in
      WhenOk-bind After (ongoing_sale deps env store) _ λ state sale.
        WhenOk-bind After (ensure (has t store.available_tokens) token_not_available) _ λ _ _.
          WhenOk-bind After (max_possible state mine) _ λ limit room.
            WhenOk-bind After (ensure (ltb 0 limit) purchase_limit_reached) _ λ _ some_room.
              WhenOk-bind After (purchase_tokens deps store (t ∷ []) info state mine) _ λ b call.
                let (ongoing, live) = WhenOk-ok _ _ ongoing_sale-WhenOk sale in
                record {
                  state = state;
                  ids = t ∷ [];
                  bought = b;
                  ongoing = ongoing;
                  open_still = live;
                  call = call;
                  below_limit = omega (
                    arith,
                    ltb→lt 0 limit (ensure-eq-ok _ purchase_limit_reached some_room),
                    sub_or_panic-eq-ok _ _ room,
                  );
                  saved = refl;
                }

  by_number :
      (n : Option ℕ) → WhenOk (Buys deps env info store) (execute_purchase deps env info store n)
  unfolding execute_purchase max_possible get_available_tokens
  by_number n =
      let After = Buys deps env info store in
      let mine = wallet info.sender store in
      WhenOk-bind After (ongoing_sale deps env store) _ λ state sale.
        WhenOk-bind After (max_possible state mine) _ λ limit room.
          WhenOk-bind After (ensure (ltb 0 limit) purchase_limit_reached) _ λ _ _.
            let ids = get_available_tokens store none (some (wanted n limit)) in
            WhenOk-bind After (purchase_tokens deps store ids info state mine) _ λ b call.
              WhenOk-bind After (deduct_funds info.funds b.required_payment) _ λ _ _.
                let (ongoing, live) = WhenOk-ok _ _ ongoing_sale-WhenOk sale in
                record {
                  state = state;
                  ids = ids;
                  bought = b;
                  ongoing = ongoing;
                  open_still = live;
                  call = call;
                  below_limit = omega (
                    arith,
                    wanted-le n limit,
                    get_available_tokens-le store (wanted n limit),
                    sub_or_panic-eq-ok _ _ room,
                  );
                  saved = refl;
                }

  pub execute_purchase_by_token_id-Buys :
      (t : ℕ) {out : Store × Response}
      → execute_purchase_by_token_id deps env info store t ≡ ok out
      → Buys deps env info store out
  execute_purchase_by_token_id-Buys t h =
      WhenOk-ok (Buys deps env info store) (execute_purchase_by_token_id deps env info store t)
        (by_token_id t) h

  pub execute_purchase-Buys :
      (n : Option ℕ) {out : Store × Response}
      → execute_purchase deps env info store n ≡ ok out
      → Buys deps env info store out
  execute_purchase-Buys n h =
      WhenOk-ok (Buys deps env info store) (execute_purchase deps env info store n) (by_number n) h
