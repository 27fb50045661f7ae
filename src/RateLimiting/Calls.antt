-- ===== src/RateLimiting/Calls.antt =====
-- Rows of deposits and withdrawals, each on the sender's own account.
use flexible_pay_crowdfund_a.Base.{
  ℕ, ◌+◌, ◌≡◌, refl, ap, subst, sym, none, some, List, [], ◌∷◌, arith,
}
use flexible_pay_crowdfund_a.Chain.Result.{
  Result, ok, ◌>>=◌, WhenOk, WhenOk-mono, WhenOk-ok, WhenOk-bind,
}
use flexible_pay_crowdfund_a.Chain.Coin.{Coin}
use flexible_pay_crowdfund_a.Chain.Dict.{
  save, may_load, IsSorted, save-IsSorted, measure, total-save,
}
use flexible_pay_crowdfund_a.Chain.Message.{Response}
use flexible_pay_crowdfund_a.Chain.Deps.{Deps, Env, MessageInfo}
use flexible_pay_crowdfund_a.RateLimiting.Handlers.{
  AccountDetails, Store, first_coin, execute_deposit, execute_withdraw,
}
use flexible_pay_crowdfund_a.RateLimiting.Accounts.{balances, execute_withdraw-Withdrawn, deposits}

-- A deposit for oneself, or a withdrawal.
pub data OwnMsg : Type 0 where
  deposit : OwnMsg
  withdraw : ℕ → OwnMsg

abbrev pub execute : Deps → Env → MessageInfo → Store → OwnMsg → Result (Store × Response)
execute deps env info store deposit = execute_deposit deps info store none
execute deps env info store (withdraw amount) = execute_withdraw deps env info store amount

abbrev pub Call : Type 0
Call = Env × MessageInfo × OwnMsg

abbrev pub run : Deps → Store → List Call → Result Store
run deps store [] = ok store
run deps store ((env, info, msg) ∷ calls) =
    execute deps env info store msg >>= λ first. run deps first.0 calls

-- The amount of the first coin.
abbrev pub first_amount : List Coin → ℕ
first_amount [] = 0
first_amount (c ∷ cs) = c.amount

-- What comes in and what goes out in a row.
abbrev pub paid_in : List Call → ℕ
paid_in [] = 0
paid_in ((env, info, deposit) ∷ calls) = first_amount info.funds + paid_in calls
paid_in ((env, info, withdraw amount) ∷ calls) = paid_in calls

abbrev pub paid_out : List Call → ℕ
paid_out [] = 0
paid_out ((env, info, deposit) ∷ calls) = paid_out calls
paid_out ((env, info, withdraw amount) ∷ calls) = amount + paid_out calls

first_coin-amount :
    (funds : List Coin) {c : Coin} → first_coin funds ≡ ok c → first_amount funds ≡ c.amount
first_coin-amount [] h = cc
first_coin-amount (c ∷ cs) h = cc

module _ (deps : Deps) where
  deposited-balances :
      (info : MessageInfo) (store : Store) {out : Store × Response}
      → IsSorted store.accounts
      → execute_deposit deps info store none ≡ ok out
      → (balances out.0.accounts ≡ balances store.accounts + first_amount info.funds)
        × IsSorted out.0.accounts
  deposited-balances info store {out} v h =
      let p = deposits deps info store h in
      let t = total-save (λ a. a.balance) info.sender p.details store.accounts v in
      let f = first_coin-amount info.funds p.paid in
      let g = p.grown in
      let sum : balances (save info.sender p.details store.accounts)
          ≡ balances store.accounts + first_amount info.funds =
        omega (arith, t, f, g) in
      subst
        (λ s.
          (balances s.accounts ≡ balances store.accounts + first_amount info.funds)
          × IsSorted s.accounts)
        (sym p.written) (sum, save-IsSorted info.sender p.details store.accounts v)

  withdrawn-balances :
      (env : Env) (info : MessageInfo) (store : Store) (amount : ℕ) {out : Store × Response}
      → IsSorted store.accounts
      → execute_withdraw deps env info store amount ≡ ok out
      → (balances out.0.accounts + amount ≡ balances store.accounts) × IsSorted out.0.accounts
  withdrawn-balances env info store amount {out} v h =
      let p = execute_withdraw-Withdrawn deps env info store amount h in
      let details : AccountDetails = record {
        balance = p.left;
        latest_withdrawal = some env.block.time;
      } in
      let t = total-save (λ a. a.balance) info.sender details store.accounts v in
      let had : measure (λ a. a.balance) (may_load info.sender store.accounts) ≡ p.account.balance =
        ap (measure (λ a. a.balance)) p.had in
      let g = p.taken in
      let sum : balances (save info.sender details store.accounts) + amount
          ≡ balances store.accounts =
        omega (arith, t, had, g) in
      subst (λ s. (balances s.accounts + amount ≡ balances store.accounts) × IsSorted s.accounts)
        (sym p.written) (sum, save-IsSorted info.sender details store.accounts v)

  all-balances :
      (store : Store) (calls : List Call)
      → IsSorted store.accounts
      → WhenOk
          (λ out.
            (balances out.accounts + paid_out calls ≡ balances store.accounts + paid_in calls)
            × IsSorted out.accounts)
          (run deps store calls)
  all-balances store [] v = (refl, v)
  all-balances store ((env, info, deposit) ∷ calls) v =
      WhenOk-bind _ (execute_deposit deps info store none) _ λ first e.
        let (now, sorted) = deposited-balances info store v e in
        WhenOk-mono _ _ (λ out k. let later = k.0 in (omega (arith, now, later), k.1))
          (run deps first.0 calls) (all-balances first.0 calls sorted)
  all-balances store ((env, info, withdraw amount) ∷ calls) v =
      WhenOk-bind _ (execute_withdraw deps env info store amount) _ λ first e.
        let (now, sorted) = withdrawn-balances env info store amount v e in
        WhenOk-mono _ _ (λ out k. let later = k.0 in (omega (arith, now, later), k.1))
          (run deps first.0 calls) (all-balances first.0 calls sorted)

  -- As long as everybody deposits on the own account, the balances of all accounts and what has been
  -- withdrawn come to the balances before and what was deposited, after any row of calls.
  pub run-balances :
      (store : Store) (calls : List Call) {out : Store}
      → IsSorted store.accounts
      → run deps store calls ≡ ok out
      → (balances out.accounts + paid_out calls ≡ balances store.accounts + paid_in calls)
        × IsSorted out.accounts
  run-balances store calls v h = WhenOk-ok _ (run deps store calls) (all-balances store calls v) h
