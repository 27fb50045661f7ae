-- ===== src/RateLimiting/Takeover.antt =====
-- What a deposit for somebody else who has an account does: `execute_deposit` of
-- contracts/finance/andromeda-rate-limiting-withdrawals/src/contract.rs writes the grown balance under
-- the sender.
use flexible_pay_crowdfund_a.Base.{
  ℕ, le→leb, ◌+◌, ◌-◌, ◌≤◌, ◌≡◌, refl, ap, ◌∙◌, true, none, some, [], ◌∷◌, ◌==◌, if◌then◌else◌,
  eqb_self,
}
use flexible_pay_crowdfund_a.Chain.Result.{ok}
use flexible_pay_crowdfund_a.Chain.Uint.{u128_max}
use flexible_pay_crowdfund_a.Chain.Coin.{Coin}
use flexible_pay_crowdfund_a.Chain.Dict.{may_load, save, may_load-save}
use flexible_pay_crowdfund_a.Chain.Message.{new_sub_msg, bank_send}
use flexible_pay_crowdfund_a.Chain.Deps.{Deps, Env, MessageInfo}
use flexible_pay_crowdfund_a.RateLimiting.Handlers.{
  AccountDetails, CoinAllowance, Store, execute_deposit, execute_withdraw, check_frequency,
}

module _ (deps : Deps) (info : MessageInfo) (store : Store) (victim : ℕ) (account : AccountDetails)
    (allowance : CoinAllowance) (c : Coin) where
  -- The storage after the deposit.
  abbrev pub taken_over : Store
  taken_over = record store {
    accounts =
        save info.sender
          (record {
            balance = account.balance + c.amount;
            latest_withdrawal = account.latest_withdrawal;
          })
          store.accounts;
  }

  takes_over :
      info.funds ≡ c ∷ []
      → deps.one_coin (c ∷ []) ≡ ok c
      → store.allowed_coin ≡ some allowance
      → c.denom ≡ allowance.coin
      → may_load victim store.accounts ≡ some account
      → account.balance + c.amount ≤ u128_max
      → execute_deposit deps info store (some victim) ≡ ok (taken_over, [])
  unfolding execute_deposit
  takes_over funds one allowed denom there small =
      let same : (allowance.coin == c.denom) ≡ true =
        ap (λ d. allowance.coin == d) denom ∙ eqb_self allowance.coin in
      let fits = le→leb (account.balance + c.amount) u128_max small in
      rw (funds, one, allowed, same, there, fits) refl

  -- A deposit of any coin of the allowed denomination for somebody else with an account, who has not
  -- withdrawn anything yet, gives the sender that account's whole balance on top of the deposit, and
  -- a withdrawal up to the limit then pays the sender out of it.
  pub execute_deposit-execute_withdraw :
      (env : Env) (amount : ℕ)
      → info.funds ≡ c ∷ []
      → deps.one_coin (c ∷ []) ≡ ok c
      → store.allowed_coin ≡ some allowance
      → c.denom ≡ allowance.coin
      → may_load victim store.accounts ≡ some account
      → account.latest_withdrawal ≡ none
      → account.balance + c.amount ≤ u128_max
      → deps.nonpayable [] ≡ ok tt
      → amount ≤ account.balance + c.amount
      → amount ≤ allowance.limit
      → (execute_deposit deps info store (some victim) ≡ ok (taken_over, []))
        × ((out : Store) × (execute_withdraw deps env (record info { funds = [] }) taken_over amount
              ≡ ok (
                out,
                new_sub_msg (
                      bank_send info.sender
                        (record { denom = allowance.coin; amount = amount } ∷ []))
                    ∷ [],
              )))
  unfolding execute_withdraw check_frequency
  execute_deposit-execute_withdraw env amount funds one allowed denom there never small free enough
        within =
      let got : AccountDetails = record {
        balance = account.balance + c.amount;
        latest_withdrawal = account.latest_withdrawal;
      } in
      let stored : may_load info.sender (save info.sender got store.accounts) ≡ some got =
        may_load-save info.sender info.sender got store.accounts
        ∙ ap (λ b. if b then some got else may_load info.sender store.accounts)
            (eqb_self info.sender) in
      let covered = le→leb amount (account.balance + c.amount) enough in
      let limited = le→leb amount allowance.limit within in
      let left : AccountDetails = record {
        balance = account.balance + c.amount - amount;
        latest_withdrawal = some env.block.time;
      } in
      (
        takes_over funds one allowed denom there small,
        (
          record store { accounts = save info.sender left (save info.sender got store.accounts) },
          rw (free, stored, never, covered, allowed, limited) refl,
        ),
      )
