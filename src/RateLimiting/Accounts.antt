-- ===== src/RateLimiting/Accounts.antt =====
-- Deposits and withdrawals on one's own account.
use flexible_pay_crowdfund_a.Base.{
  ℕ, ◌+◌, ◌≤◌, ◌≡◌, refl, ap, Option, none, some, [], ◌∷◌, arith, leb, ◌==◌, leb→le,
}
use flexible_pay_crowdfund_a.Chain.Result.{
  ok, ◌>>=◌, WhenOk, WhenOk-ok, WhenOk-bind, ensure, ensure-eq-ok, or_err, or_err-eq-ok, not_found,
  invalid_funds, insufficient_funds, account_not_found, withdrawal_limit_exceeded,
}
use flexible_pay_crowdfund_a.Chain.Uint.{u128_max, checked_add, checked_add-eq-ok, sub_or_panic}
use flexible_pay_crowdfund_a.Chain.Coin.{Coin}
use flexible_pay_crowdfund_a.Chain.Dict.{Dict, may_load, save, total, measure}
use flexible_pay_crowdfund_a.Chain.Message.{Response, add_message_to, bank_send}
use flexible_pay_crowdfund_a.Chain.Deps.{Deps, Env, MessageInfo}
use flexible_pay_crowdfund_a.RateLimiting.Handlers.{
  AccountDetails, CoinAllowance, Store, first_coin, deposited, execute_deposit, check_frequency,
  execute_withdraw,
}

-- What all accounts hold together.
abbrev pub balances : Dict AccountDetails → ℕ
balances accounts = total (λ a. a.balance) accounts

-- What a withdrawal that succeeds has done.
pub record Withdrawn (env : Env) (info : MessageInfo) (store : Store) (amount : ℕ)
    (out : Store × Response) : Type 0 where
  pub account : AccountDetails
  pub allowance : CoinAllowance
  pub left : ℕ
  pub had : may_load info.sender store.accounts ≡ some account
  pub allowed : store.allowed_coin ≡ some allowance
  pub in_time : check_frequency env store account.latest_withdrawal ≡ ok tt
  pub within_limit : amount ≤ allowance.limit
  pub taken : left + amount ≡ account.balance
  pub written : out.0 ≡ record store {
    accounts =
        save info.sender
          (record { balance = left; latest_withdrawal = some env.block.time })
          store.accounts;
  }
  pub answered :
      out.1
      ≡ add_message_to []
          (bank_send info.sender (record { denom = allowance.coin; amount = amount } ∷ []))

subtracts : (a b : ℕ) {c : ℕ} → sub_or_panic a b ≡ ok c → c + b ≡ a
subtracts a b h = ground arith

-- A withdrawal succeeds only from one's own account, when the time since the last one allows it, and
-- up to the limit and the balance; it sends exactly the amount and takes it off the balance, and the
-- account notes the time.
pub execute_withdraw-Withdrawn :
    (deps : Deps) (env : Env) (info : MessageInfo) (store : Store) (amount : ℕ)
    {out : Store × Response}
    → execute_withdraw deps env info store amount ≡ ok out
    → Withdrawn env info store amount out
unfolding execute_withdraw
execute_withdraw-Withdrawn deps env info store amount h =
    let After = Withdrawn env info store amount in
    WhenOk-ok After (execute_withdraw deps env info store amount)
      (WhenOk-bind After (deps.nonpayable info.funds) _ λ _ _.
        WhenOk-bind After (or_err (may_load info.sender store.accounts) account_not_found) _
          λ account had.
            WhenOk-bind After (check_frequency env store account.latest_withdrawal) _ λ _ in_time.
              WhenOk-bind After (ensure (leb amount account.balance) insufficient_funds) _ λ _ _.
                WhenOk-bind After (or_err store.allowed_coin not_found) _ λ allowance allowed.
                  WhenOk-bind After (ensure (leb amount allowance.limit) withdrawal_limit_exceeded)
                    _
                    λ _ within.
                      WhenOk-bind After (sub_or_panic account.balance amount) _ λ left taken.
                        record {
                          account = account;
                          allowance = allowance;
                          left = left;
                          had =
                              or_err-eq-ok (may_load info.sender store.accounts) account_not_found
                                had;
                          allowed = or_err-eq-ok store.allowed_coin not_found allowed;
                          in_time = in_time;
                          within_limit =
                              leb→le amount allowance.limit
                                (ensure-eq-ok _ withdrawal_limit_exceeded within);
                          taken = subtracts account.balance amount taken;
                          written = refl;
                          answered = refl;
                        })
      h

-- What a deposit on one's own account that succeeds has done.
pub record Deposited (info : MessageInfo) (store : Store) (out : Store × Response) : Type 0 where
  pub coin : Coin
  pub details : AccountDetails
  pub paid : first_coin info.funds ≡ ok coin
  pub grown :
      details.balance ≡ measure (λ a. a.balance) (may_load info.sender store.accounts) + coin.amount
  pub written : out.0 ≡ record store { accounts = save info.sender details store.accounts }
  pub silent : out.1 ≡ []

-- The account's new entry, written under the sender.
Own : MessageInfo → Coin → Option AccountDetails → ℕ × AccountDetails → Type 0
Own info c account r =
    (r.0 ≡ info.sender) × (r.1.balance ≡ measure (λ a. a.balance) account + c.amount)

deposited-Own :
    (info : MessageInfo) (c : Coin) (account : Option AccountDetails)
    → WhenOk (Own info c account) (deposited info info.sender c account)
unfolding Own
deposited-Own info c none = (refl, omega arith)
deposited-Own info c (some account) =
    WhenOk-bind (Own info c (some account)) (checked_add u128_max account.balance c.amount) _
      λ n e. (refl, (checked_add-eq-ok u128_max account.balance c.amount e).0)

pub deposits :
    (deps : Deps) (info : MessageInfo) (store : Store) {out : Store × Response}
    → execute_deposit deps info store none ≡ ok out
    → Deposited info store out
unfolding execute_deposit Own
deposits deps info store h =
    let After = Deposited info store in
    let mine = may_load info.sender store.accounts in
    WhenOk-ok After (execute_deposit deps info store none)
      (WhenOk-bind After (deps.one_coin info.funds >>= λ _. ok tt) _ λ _ _.
        WhenOk-bind After (or_err store.allowed_coin not_found) _ λ allowance _.
          WhenOk-bind After (first_coin info.funds) _ λ c paid.
            WhenOk-bind After (ensure (allowance.coin == c.denom) invalid_funds) _ λ _ _.
              WhenOk-bind After (deposited info info.sender c mine) _ λ r e.
                let own = WhenOk-ok (Own info c mine) _ (deposited-Own info c mine) e in
                record {
                  coin = c;
                  details = r.1;
                  paid = paid;
                  grown = own.1;
                  written = ap (λ k. record store { accounts = save k r.1 store.accounts }) own.0;
                  silent = refl;
                })
      h
