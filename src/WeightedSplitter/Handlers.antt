-- ===== src/WeightedSplitter/Handlers.antt =====
-- The handlers of contracts/finance/andromeda-weighted-distribution-splitter/src/contract.rs.
use flexible_pay_crowdfund_a.Base.{
  ℕ, ◌*◌, ◌/◌, not, some, List, [], ◌∷◌, ◌++◌, is_empty, length, ltb, leb, ◌==◌, if◌then◌else◌,
}
use flexible_pay_crowdfund_a.Chain.Result.{
  Result, ok, panicked, ◌>>=◌, ◌>>◌, ensure, or_err, not_found, unauthorized, invalid_funds,
  contract_locked, invalid_weight, user_not_found, duplicate_recipient, empty_recipients_list,
  reached_recipient_limit, exceeds_max_allowed_coins, lock_time_too_short, lock_time_too_long,
}
use flexible_pay_crowdfund_a.Chain.Uint.{u64_max, u128_max, checked_sub, add_or_panic, mul_or_panic}
use flexible_pay_crowdfund_a.Chain.Coin.{Coin}
use flexible_pay_crowdfund_a.Chain.Message.{Response}
use flexible_pay_crowdfund_a.Chain.Deps.{Deps, Env, MessageInfo, at_time}
use flexible_pay_crowdfund_a.Chain.Time.{seconds}
use flexible_pay_crowdfund_a.Ado.Base.{is_owner_or_operator}
use flexible_pay_crowdfund_a.Ado.Recipient.{Recipient, generate_direct_msg}
use flexible_pay_crowdfund_a.Splitter.Handlers.{one_day, one_year, positive, give_back}
use flexible_pay_crowdfund_a.WeightedSplitter.Recipients.{
  AddressWeight, Splitter, Store, position, any_recipient, set_weight, swap_remove, zero_weight,
  add_weights, weight_of,
}

-- What the handlers that change the configuration begin with: the owner, without funds.
unfoldable pub check_owner : Deps → MessageInfo → Store → Result (Unit {0})
check_owner deps info store = do
  deps.nonpayable info.funds
  allowed ← is_owner_or_operator store.ado info.sender
  ensure allowed unauthorized

-- The stored configuration, whose lock is over.
unfoldable pub unlocked : Deps → Env → Store → Result Splitter
unlocked deps env store = do
  splitter ← or_err store.splitter not_found
  ensure (deps.is_expired splitter.lock env.block) contract_locked
  ok splitter

abbrev pub with_recipients : Store → Splitter → List AddressWeight → Store × Response
with_recipients store splitter recipients =
    (record store { splitter = some (record splitter { recipients = recipients }) }, [])

unfoldable pub execute_update_recipient_weight :
    Deps → Env → MessageInfo → Store → AddressWeight → Result (Store × Response)
unfolding check_owner unlocked
execute_update_recipient_weight deps env info store recipient = do
  check_owner deps info store
  ensure (ltb 0 recipient.weight) invalid_weight
  splitter ← unlocked deps env store
  i ← or_err (position recipient.recipient splitter.recipients) user_not_found
  ok (with_recipients store splitter (set_weight i recipient.weight splitter.recipients))

unfoldable pub execute_add_recipient :
    Deps → Env → MessageInfo → Store → AddressWeight → Result (Store × Response)
unfolding check_owner unlocked
execute_add_recipient deps env info store recipient = do
  check_owner deps info store
  splitter ← unlocked deps env store
  ensure (ltb 0 recipient.weight) invalid_weight
  ensure (not (any_recipient recipient.recipient splitter.recipients)) duplicate_recipient
  ensure (ltb (length splitter.recipients) 100) reached_recipient_limit
  ok (with_recipients store splitter (splitter.recipients ++ recipient ∷ []))

-- `amount.multiply_ratio(weight, total_weight)`
unfoldable pub share : ℕ → ℕ → ℕ → Result ℕ
share amount weight total_weight =
    let r = amount * weight / total_weight in
    if total_weight == 0 then panicked else if leb r u128_max then ok r else panicked

unfoldable pub take_shares : ℕ → ℕ → List Coin → List Coin → Result (List Coin × List Coin)
unfolding share
take_shares weight total_weight [] remainder = ok ([], remainder)
take_shares weight total_weight (c ∷ cs) [] = panicked
take_shares weight total_weight (c ∷ cs) (r ∷ rs) = do
  amount ← share c.amount weight total_weight
  left ← checked_sub r.amount amount
  (coins, rs') ← take_shares weight total_weight cs rs
  ok (record c { amount = amount } ∷ coins, record r { amount = left } ∷ rs')

-- The loop over the recipients: what is left, and the messages.
unfoldable pub split :
    Deps → List Coin → ℕ → List AddressWeight → List Coin × Response → Result (List Coin × Response)
unfolding take_shares
split deps funds total_weight [] acc = ok acc
split deps funds total_weight (x ∷ xs) (remainder, msgs) = do
  (coins, remainder') ← take_shares x.weight total_weight funds remainder
  direct_message ← generate_direct_msg deps x.recipient coins
  split deps funds total_weight xs (remainder', msgs ++ direct_message ∷ [])

unfoldable pub execute_send : Deps → MessageInfo → Store → Result (Store × Response)
unfolding split
execute_send deps info store = do
  ensure (not (is_empty info.funds)) invalid_funds
  ensure (ltb (length info.funds) 5) exceeds_max_allowed_coins
  splitter ← or_err store.splitter not_found
  total_weight ← add_weights splitter.recipients 0
  (remainder, msgs) ← split deps info.funds total_weight splitter.recipients (info.funds, [])
  ok (store, msgs ++ give_back info.sender (positive remainder))

unfoldable pub execute_update_recipients :
    Deps → Env → MessageInfo → Store → List AddressWeight → Result (Store × Response)
unfolding check_owner unlocked
execute_update_recipients deps env info store recipients = do
  check_owner deps info store
  ensure (not (is_empty recipients)) empty_recipients_list
  splitter ← unlocked deps env store
  ensure (leb (length recipients) 100) reached_recipient_limit
  ensure (not (zero_weight recipients)) invalid_weight
  ok (with_recipients store splitter recipients)

unfoldable pub execute_remove_recipient :
    Deps → Env → MessageInfo → Store → Recipient → Result (Store × Response)
unfolding check_owner unlocked
execute_remove_recipient deps env info store recipient = do
  check_owner deps info store
  splitter ← unlocked deps env store
  i ← or_err (position recipient splitter.recipients) user_not_found
  ok (with_recipients store splitter (swap_remove i splitter.recipients))

-- `Timestamp::from_seconds` is exact below 2^64 nanoseconds and panics above.
unfoldable pub execute_update_lock :
    Deps → Env → MessageInfo → Store → ℕ → Result (Store × Response)
unfolding check_owner unlocked
execute_update_lock deps env info store lock_time = do
  check_owner deps info store
  splitter ← unlocked deps env store
  ensure (leb one_day lock_time) lock_time_too_short
  ensure (leb lock_time one_year) lock_time_too_long
  end ← add_or_panic u64_max lock_time (seconds env.block.time)
  t ← mul_or_panic u64_max end 1000000000
  ok (record store { splitter = some (record splitter { lock = at_time t }) }, [])

-- The weight of a user, and that of all.
unfoldable pub query_user_weight : Store → Recipient → Result (ℕ × ℕ)
query_user_weight store user = do
  splitter ← or_err store.splitter not_found
  total_weight ← add_weights splitter.recipients 0
  ok (weight_of user splitter.recipients, total_weight)
