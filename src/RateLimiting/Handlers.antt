-- ===== src/RateLimiting/Handlers.antt =====
-- Accounts, and the handlers of
-- contracts/finance/andromeda-rate-limiting-withdrawals/src/contract.rs.
use flexible_pay_crowdfund_a.Base.{ℕ, Option, none, some, List, [], ◌∷◌, unwrap_or, leb, ◌==◌}
use flexible_pay_crowdfund_a.Chain.Result.{
  Result, ok, panicked, ◌>>=◌, ◌>>◌, ensure, or_err, not_found, invalid_funds, funds_are_locked,
  insufficient_funds, account_not_found, withdrawal_limit_exceeded,
}
use flexible_pay_crowdfund_a.Chain.Uint.{u128_max, checked_add, sub_or_panic}
use flexible_pay_crowdfund_a.Chain.Coin.{Coin}
use flexible_pay_crowdfund_a.Chain.Dict.{Dict, may_load, save}
use flexible_pay_crowdfund_a.Chain.Message.{Response, add_message_to, bank_send}
use flexible_pay_crowdfund_a.Chain.Deps.{Deps, Env, MessageInfo}
use flexible_pay_crowdfund_a.Chain.Time.{seconds, from_seconds, minus_seconds}
use flexible_pay_crowdfund_a.Ado.Base.{Ado}

-- The time of the latest withdrawal is in nanoseconds.
pub record AccountDetails : Type 0 where
  pub balance : ℕ
  pub latest_withdrawal : Option ℕ

-- The frequency is in milliseconds.
pub record CoinAllowance : Type 0 where
  pub coin : ℕ
  pub limit : ℕ
  pub minimal_withdrawal_frequency : ℕ

pub record Store : Type 0 where
  pub ado : Ado
  pub accounts : Dict AccountDetails
  pub allowed_coin : Option CoinAllowance

-- `funds[0]`
abbrev pub first_coin : List Coin → Result Coin
first_coin [] = panicked
first_coin (c ∷ cs) = ok c

-- The entry that a deposit writes, and the account under which it does.
abbrev pub deposited : MessageInfo → ℕ → Coin → Option AccountDetails → Result (ℕ × AccountDetails)
deposited info user c (some account) = do
  new_amount ← checked_add u128_max account.balance c.amount
  ok (info.sender, record { balance = new_amount; latest_withdrawal = account.latest_withdrawal })
deposited info user c none = ok (user, record { balance = c.amount; latest_withdrawal = none })

unfoldable pub execute_deposit : Deps → MessageInfo → Store → Option ℕ → Result (Store × Response)
execute_deposit deps info store recipient = do
  deps.one_coin info.funds >>= λ _. ok tt
  coin ← or_err store.allowed_coin not_found
  c ← first_coin info.funds
  ensure (coin.coin == c.denom) invalid_funds
  let user = unwrap_or recipient info.sender
  (key, details) ← deposited info user c (may_load user store.accounts)
  ok (record store { accounts = save key details store.accounts }, [])

-- Whether enough time has passed since the latest withdrawal.
unfoldable pub check_frequency : Env → Store → Option ℕ → Result (Unit {0})
check_frequency env store none = ok tt
check_frequency env store (some latest_withdrawal) = do
  coin ← or_err store.allowed_coin not_found
  current_time ← from_seconds (seconds env.block.time)
  seconds_since_withdrawal ← minus_seconds current_time (seconds latest_withdrawal)
  ensure (leb coin.minimal_withdrawal_frequency seconds_since_withdrawal) funds_are_locked

-- The two branches of the source, with and without an earlier withdrawal, go on alike.
unfoldable pub execute_withdraw : Deps → Env → MessageInfo → Store → ℕ → Result (Store × Response)
unfolding check_frequency
execute_withdraw deps env info store amount = do
  deps.nonpayable info.funds
  account ← or_err (may_load info.sender store.accounts) account_not_found
  check_frequency env store account.latest_withdrawal
  ensure (leb amount account.balance) insufficient_funds
  coin ← or_err store.allowed_coin not_found
  ensure (leb amount coin.limit) withdrawal_limit_exceeded
  new_amount ← sub_or_panic account.balance amount
  let details : AccountDetails = record {
    balance = new_amount;
    latest_withdrawal = some env.block.time;
  }
  ok (
    record store { accounts = save info.sender details store.accounts },
    add_message_to [] (bank_send info.sender (record { denom = coin.coin; amount = amount } ∷ [])),
  )

unfoldable pub query_account_details : Store → ℕ → Result AccountDetails
query_account_details store account = or_err (may_load account store.accounts) account_not_found

unfoldable pub query_coin_allowance_details : Store → Result CoinAllowance
query_coin_allowance_details store = or_err store.allowed_coin not_found
