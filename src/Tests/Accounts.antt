-- ===== src/Tests/Accounts.antt =====
-- Accounts with limited withdrawals: 5 has 500, at most 100 at a time.
use flexible_pay_crowdfund_a.Base.{
  ◌+◌, ◌*◌, ◌-◌, ◌≤◌, ◌++◌, ◌≡◌, refl, arith, none, some, List, [], ◌∷◌,
}
use flexible_pay_crowdfund_a.Chain.Result.{ok}
use flexible_pay_crowdfund_a.Chain.Dict.{save, may_load, IsSorted}
use flexible_pay_crowdfund_a.Chain.Message.{Response, new_sub_msg, bank_send}
use flexible_pay_crowdfund_a.Chain.Deps.{MessageInfo}
use flexible_pay_crowdfund_a.RateLimiting.Handlers.{
  AccountDetails, CoinAllowance, Store, execute_deposit, execute_withdraw, check_frequency,
}
use flexible_pay_crowdfund_a.RateLimiting.Accounts.{balances}
use flexible_pay_crowdfund_a.RateLimiting.Frequency.{execute_withdraw-execute_withdraw}
use flexible_pay_crowdfund_a.Chain.Outflow.{outflows}
use flexible_pay_crowdfund_a.Chain.Time.{seconds}
use flexible_pay_crowdfund_a.RateLimiting.Calls.{Call, deposit, withdraw, run, run-balances}
use flexible_pay_crowdfund_a.RateLimiting.Takeover.{taken_over, execute_deposit-execute_withdraw}
use flexible_pay_crowdfund_a.Tests.{value_or, coin, deps, at_second, ado}

abbrev rich : AccountDetails
rich = record { balance = 500; latest_withdrawal = none }

abbrev allowance : CoinAllowance
allowance = record { coin = 1; limit = 100; minimal_withdrawal_frequency = 10000 }

abbrev store : Store
store = record { ado = ado; accounts = (5, rich) ∷ []; allowed_coin = some allowance }

abbrev holder : MessageInfo
holder = record { sender = 5; funds = [] }

abbrev paying : MessageInfo
paying = record { sender = 9; funds = coin 1 1 ∷ [] }

abbrev calls : List Call
calls =
    (at_second 10, holder, withdraw 100)
    ∷ (at_second 15, paying, deposit)
    ∷ (at_second 30, holder, withdraw 80)
    ∷ []

abbrev after_calls : Store
after_calls = value_or store (run deps store calls)

calls_succeed : run deps store calls ≡ ok after_calls
unfolding execute_deposit execute_withdraw check_frequency save
calls_succeed = refl

run-balances_example : (balances after_calls.accounts + 180 ≡ 501) × IsSorted after_calls.accounts
run-balances_example = run-balances deps store calls tt calls_succeed

abbrev withdrawn : Store × Response
withdrawn = value_or (store, []) (execute_withdraw deps (at_second 10) holder store 100)

withdraw_succeeds : execute_withdraw deps (at_second 10) holder store 100 ≡ ok withdrawn
unfolding execute_withdraw check_frequency save
withdraw_succeeds = refl

abbrev withdrawn_again : Store × Response
withdrawn_again = value_or (store, []) (execute_withdraw deps (at_second 20) holder withdrawn.0 80)

again_succeeds : execute_withdraw deps (at_second 20) holder withdrawn.0 80 ≡ ok withdrawn_again
unfolding execute_withdraw check_frequency save
again_succeeds = refl

execute_withdraw-execute_withdraw_example :
    (seconds (at_second 10).block.time * 1000 + 10000 ≤ seconds (at_second 20).block.time * 1000)
    × (100 ≤ allowance.limit)
    × (80 ≤ allowance.limit)
    × (100 + 80 ≤ rich.balance)
    × (outflows 1 (withdrawn.1 ++ withdrawn_again.1) ≡ 100 + 80)
    × (may_load 5 withdrawn_again.0.accounts
        ≡ some (record {
          balance = rich.balance - (100 + 80);
          latest_withdrawal = some (at_second 20).block.time;
        }))
execute_withdraw-execute_withdraw_example =
    execute_withdraw-execute_withdraw deps (at_second 10) (at_second 20) holder store 100 80 refl
      refl withdraw_succeeds again_succeeds

execute_deposit-execute_withdraw_example :
    (execute_deposit deps paying store (some 5)
      ≡ ok (taken_over deps paying store 5 rich allowance (coin 1 1), []))
    × ((out : Store) × (execute_withdraw deps
            (at_second 10)
            (record { sender = 9; funds = [] })
            (taken_over deps paying store 5 rich allowance (coin 1 1))
            100
          ≡ ok (out, new_sub_msg (bank_send 9 (coin 1 100 ∷ [])) ∷ [])))
execute_deposit-execute_withdraw_example =
    execute_deposit-execute_withdraw deps paying store 5 rich allowance (coin 1 1) (at_second 10)
      100 refl refl refl refl refl refl (omega arith) refl (omega arith) (omega arith)
