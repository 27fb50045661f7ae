-- ===== src/RateLimiting/Frequency.antt =====
-- The rate limit: what two withdrawals of one account in succession can take, and when.
use flexible_pay_crowdfund_a.Base.{
  ℕ, ◌+◌, ◌-◌, ◌*◌, ◌≤◌, ◌≡◌, refl, ap, ◌∙◌, sym, some, ◌++◌, arith, leb→le, leb, Bool, true, false,
  eqb_self, unwrap_or, ◌==◌, [], ◌∷◌, if◌then◌else◌,
}
use flexible_pay_crowdfund_a.Chain.Result.{
  ok, WhenOk, WhenOk-ok, WhenOk-mono, WhenOk-bind, ensure, or_err, or_err-eq-ok, not_found,
  funds_are_locked,
}
use flexible_pay_crowdfund_a.Chain.Time.{seconds, from_seconds, minus_seconds}
use flexible_pay_crowdfund_a.Chain.Dict.{may_load, save, may_load-save}
use flexible_pay_crowdfund_a.Chain.Message.{Response, add_message_to, bank_send}
use flexible_pay_crowdfund_a.Chain.Outflow.{outflows, outflows-append}
use flexible_pay_crowdfund_a.Chain.Deps.{Deps, Env, MessageInfo}
use flexible_pay_crowdfund_a.RateLimiting.Handlers.{
  AccountDetails, CoinAllowance, Store, check_frequency, execute_withdraw,
}
use flexible_pay_crowdfund_a.RateLimiting.Accounts.{execute_withdraw-Withdrawn}

some_injective : {A : Type 0} {a b : A} → some a ≡ some b → a ≡ b
some_injective {A} {a} h = ap (λ o. unwrap_or o a) h

in_milliseconds : (s : ℕ) {t : ℕ} → from_seconds s ≡ ok t → t ≡ s * 1000
in_milliseconds s h = ground arith

difference : (t s : ℕ) {u : ℕ} → minus_seconds t s ≡ ok u → u + s * 1000 ≡ t
difference t s h = ground arith

ensured : (b : Bool) → WhenOk (λ _. b ≡ true) (ensure b funds_are_locked)
ensured true = refl
ensured false = tt

-- The check passes only if the account's last withdrawal is long enough ago.
check_frequency-waited :
    (env : Env) (store : Store) (last : ℕ) {c : CoinAllowance}
    → store.allowed_coin ≡ some c
    → check_frequency env store (some last) ≡ ok tt
    → seconds last * 1000 + c.minimal_withdrawal_frequency ≤ seconds env.block.time * 1000
unfolding check_frequency
check_frequency-waited env store last {c} allowed h =
    let now = seconds env.block.time in
    let After : Unit {0} → Type 0 =
      λ _. seconds last * 1000 + c.minimal_withdrawal_frequency ≤ now * 1000 in
    WhenOk-ok After (check_frequency env store (some last))
      (WhenOk-bind After (or_err store.allowed_coin not_found) _ λ coin found.
        WhenOk-bind After (from_seconds now) _ λ current at.
          WhenOk-bind After (minus_seconds current (seconds last)) _ λ passed since.
            WhenOk-mono (λ _. leb coin.minimal_withdrawal_frequency passed ≡ true) After
              (λ _ enough.
                let same : coin ≡ c =
                  some_injective
                    (sym (or_err-eq-ok store.allowed_coin not_found found) ∙ allowed) in
                let frequency : coin.minimal_withdrawal_frequency ≡ c.minimal_withdrawal_frequency =
                  ap (λ k. k.minimal_withdrawal_frequency) same in
                let long = leb→le coin.minimal_withdrawal_frequency passed enough in
                let start = in_milliseconds now at in
                let gap = difference current (seconds last) since in
                omega (arith, frequency, long, start, gap))
              (ensure (leb coin.minimal_withdrawal_frequency passed) funds_are_locked)
              (ensured (leb coin.minimal_withdrawal_frequency passed)))
      h

-- The entry that is written is found.
found : (k : ℕ) (a : AccountDetails) (store : Store) → may_load k (save k a store.accounts) ≡ some a
found k a store =
    may_load-save k k a store.accounts
    ∙ ap (λ b. if b then some a else may_load k store.accounts) (eqb_self k)

one_coin : (d coin amount : ℕ) → coin ≡ d → (if coin == d then amount else 0) + 0 + 0 ≡ amount
one_coin d coin amount h = ground arith

sends :
    (d coin to amount : ℕ) {r : Response}
    → coin ≡ d
    → r ≡ add_message_to [] (bank_send to (record { denom = coin; amount = amount } ∷ []))
    → outflows d r ≡ amount
sends d coin to amount same answer = ap (outflows d) answer ∙ one_coin d coin amount same

module _ (deps : Deps) (env later : Env) (info : MessageInfo) (store : Store)
    (amount again : ℕ) where
  -- Two withdrawals of one account in succession are at least the allowance's minimal frequency
  -- apart, in whole seconds of the blocks; neither takes more than the limit, and both together no
  -- more than the account held. Together they send the two amounts in the allowance's coin, and leave
  -- the rest in the account, which notes the time of the second.
  pub execute_withdraw-execute_withdraw :
      {account : AccountDetails} {allowance : CoinAllowance} {first second : Store × Response}
      → may_load info.sender store.accounts ≡ some account
      → store.allowed_coin ≡ some allowance
      → execute_withdraw deps env info store amount ≡ ok first
      → execute_withdraw deps later info first.0 again ≡ ok second
      → (seconds env.block.time * 1000 + allowance.minimal_withdrawal_frequency
          ≤ seconds later.block.time * 1000)
        × (amount ≤ allowance.limit)
        × (again ≤ allowance.limit)
        × (amount + again ≤ account.balance)
        × (outflows allowance.coin (first.1 ++ second.1) ≡ amount + again)
        × (may_load info.sender second.0.accounts
            ≡ some (record {
              balance = account.balance - (amount + again);
              latest_withdrawal = some later.block.time;
            }))
  execute_withdraw-execute_withdraw {account} {allowance} {first} {second} had allowed h next =
      let p = execute_withdraw-Withdrawn deps env info store amount h in
      let between : AccountDetails = record {
        balance = p.left;
        latest_withdrawal = some env.block.time;
      } in
      let middle : Store = record store { accounts = save info.sender between store.accounts } in
      let q =
        execute_withdraw-Withdrawn deps later info middle again
          (ap (λ s. execute_withdraw deps later info s again) (sym p.written) ∙ next) in
      let mine : p.account ≡ account = some_injective (sym p.had ∙ had) in
      let coin : p.allowance ≡ allowance = some_injective (sym p.allowed ∙ allowed) in
      let coin_again : q.allowance ≡ allowance = some_injective (sym q.allowed ∙ allowed) in
      let noted : q.account ≡ between =
        some_injective (sym q.had ∙ found info.sender between store) in
      let in_time : check_frequency later middle (some env.block.time) ≡ ok tt =
        ap (λ a. check_frequency later middle a.latest_withdrawal) (sym noted) ∙ q.in_time in
      let balance = ap (λ a. a.balance) mine in
      let then_balance : q.account.balance ≡ p.left = ap (λ a. a.balance) noted in
      let limit = ap (λ c. c.limit) coin in
      let limit_again = ap (λ c. c.limit) coin_again in
      let denom = ap (λ c. c.coin) coin in
      let denom_again = ap (λ c. c.coin) coin_again in
      let one = p.within_limit in
      let two = q.within_limit in
      let first_taken = p.taken in
      let second_taken = q.taken in
      let rest : q.left ≡ account.balance - (amount + again) =
        omega (arith, balance, then_balance, first_taken, second_taken) in
      let last : AccountDetails = record {
        balance = q.left;
        latest_withdrawal = some later.block.time;
      } in
      (
        check_frequency-waited later middle env.block.time allowed in_time,
        omega (arith, limit, one),
        omega (arith, limit_again, two),
        omega (arith, balance, then_balance, first_taken, second_taken),
        outflows-append allowance.coin first.1 second.1 ∙ (λ i.
            sends allowance.coin p.allowance.coin info.sender amount denom p.answered i
            + sends allowance.coin q.allowance.coin info.sender again denom_again q.answered i),
        ap (λ s. may_load info.sender s.accounts) q.written
            ∙ found info.sender last middle
            ∙ ap (λ n. some (record { balance = n; latest_withdrawal = some later.block.time }))
                rest,
      )
