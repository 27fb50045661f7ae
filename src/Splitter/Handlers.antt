-- ===== src/Splitter/Handlers.antt =====
-- The handlers of contracts/finance/andromeda-splitter/src/contract.rs.
use flexible_pay_crowdfund_a.Base.{
  ℕ, not, Option, none, some, List, [], ◌∷◌, ◌++◌, is_empty, length, ltb, leb, ◌==◌, if◌then◌else◌,
}
use flexible_pay_crowdfund_a.Chain.Result.{
  Result, ok, panicked, ◌>>=◌, ◌>>◌, ensure, or_err, not_found, unauthorized, invalid_funds,
  contract_locked, reached_recipient_limit, exceeds_max_allowed_coins, lock_time_too_short,
  lock_time_too_long,
}
use flexible_pay_crowdfund_a.Chain.Uint.{u128_max, checked_sub}
use flexible_pay_crowdfund_a.Chain.Coin.{Coin}
use flexible_pay_crowdfund_a.Chain.Message.{
  AmpPkt, from_ctx, add_message, to_sub_msg, SubMsg, new_sub_msg, bank_send, Response,
}
use flexible_pay_crowdfund_a.Chain.Deps.{Deps, Env, MessageInfo}
use flexible_pay_crowdfund_a.Chain.Time.{
  seconds, has_passed, from_seconds, to_seconds, plus_milliseconds,
}
use flexible_pay_crowdfund_a.Ado.Base.{Ado, is_owner_or_operator, get_kernel_address}
use flexible_pay_crowdfund_a.Ado.Recipient.{generate_amp_msg}
use flexible_pay_crowdfund_a.Ado.Withdrawal.{mul_decimal}
use flexible_pay_crowdfund_a.Splitter.State.{
  AddressPercent, Splitter, Store, validate_recipient_list,
}

-- A day and a year in seconds.
abbrev pub one_day : ℕ
one_day = 86400

abbrev pub one_year : ℕ
one_year = 31536000

-- The end of a lock of that length.
unfoldable pub locked_until : ℕ → ℕ → Result ℕ
locked_until current_time lock_time = do
  ensure (leb one_day (to_seconds lock_time)) lock_time_too_short
  ensure (leb (to_seconds lock_time) one_year) lock_time_too_long
  plus_milliseconds current_time lock_time

-- `instantiate`, after which the base of the contract is in place.
unfoldable pub instantiate : Deps → Env → Ado → List AddressPercent → Option ℕ → Result Store
unfolding locked_until
instantiate deps env ado recipients lock_time = do
  current_time ← from_seconds (seconds env.block.time)
  lock ← elim lock_time [ none ↦ ok 0 | some t ↦ locked_until current_time t ]
  validate_recipient_list deps recipients
  ok (record { ado = ado; splitter = some (record { recipients = recipients; lock = lock }) })

abbrev pub all_nonzero : List Coin → Result (Unit {0})
all_nonzero [] = ok tt
all_nonzero (c ∷ cs) = do ensure (not (c.amount == 0)) invalid_funds; all_nonzero cs

-- `coin.amount * percent`
unfoldable pub share : ℕ → ℕ → Result ℕ
share amount percent =
    let r = mul_decimal amount percent in if leb r u128_max then ok r else panicked

-- The inner loop: a recipient's coins, and what is left of each.
unfoldable pub take_shares : ℕ → List Coin → List Coin → Result (List Coin × List Coin)
unfolding share
take_shares percent [] remainder = ok ([], remainder)
take_shares percent (c ∷ cs) [] = panicked
take_shares percent (c ∷ cs) (r ∷ rs) = do
  amount ← share c.amount percent
  left ← checked_sub r.amount amount
  (coins, rs') ← take_shares percent cs rs
  ok (record c { amount = amount } ∷ coins, record r { amount = left } ∷ rs')

-- What the outer loop keeps: what is left, what goes to the kernel, and the packet.
pub record Split : Type 0 where
  pub remainder : List Coin
  pub amp_funds : List Coin
  pub pkt : AmpPkt

unfoldable pub split : Deps → List Coin → List AddressPercent → Split → Result Split
unfolding take_shares
split deps funds [] acc = ok acc
split deps funds (rec ∷ recs) acc = do
  (coins, remainder) ← take_shares rec.percent funds acc.remainder
  amp_msg ← generate_amp_msg deps rec.recipient coins
  split deps funds recs (record {
    remainder = remainder;
    amp_funds = acc.amp_funds ++ coins;
    pkt = add_message acc.pkt amp_msg;
  })

-- `retain(|x| x.amount > 0)`
abbrev pub positive : List Coin → List Coin
positive [] = []
positive (c ∷ cs) = let rest = positive cs in if ltb 0 c.amount then c ∷ rest else rest

abbrev pub give_back : ℕ → List Coin → List SubMsg
give_back sender coins = if is_empty coins then [] else new_sub_msg (bank_send sender coins) ∷ []

unfoldable pub execute_send :
    Deps → Env → MessageInfo → Option AmpPkt → Store → Result (Store × Response)
unfolding split
execute_send deps env info amp_ctx store = do
  ensure (not (is_empty info.funds)) invalid_funds
  all_nonzero info.funds
  splitter ← or_err store.splitter not_found
  ensure (ltb (length info.funds) 5) exceeds_max_allowed_coins
  s ← split deps info.funds splitter.recipients (record {
    remainder = info.funds;
    amp_funds = [];
    pkt = from_ctx amp_ctx env.contract_address;
  })
  kernel_address ← get_kernel_address store.ado
  ok (
    store,
    give_back info.sender (positive s.remainder)
        ++ to_sub_msg s.pkt kernel_address s.amp_funds 1 ∷ [],
  )

unfoldable pub execute_update_recipients :
    Deps → Env → MessageInfo → Store → List AddressPercent → Result (Store × Response)
unfolding validate_recipient_list has_passed
execute_update_recipients deps env info store recipients = do
  deps.nonpayable info.funds
  allowed ← is_owner_or_operator store.ado info.sender
  ensure allowed unauthorized
  validate_recipient_list deps recipients
  splitter ← or_err store.splitter not_found
  ensure (has_passed splitter.lock env.block) contract_locked
  ensure (leb (length recipients) 100) reached_recipient_limit
  ok (record store { splitter = some (record splitter { recipients = recipients }) }, [])

unfoldable pub execute_update_lock :
    Deps → Env → MessageInfo → Store → ℕ → Result (Store × Response)
unfolding locked_until has_passed
execute_update_lock deps env info store lock_time = do
  deps.nonpayable info.funds
  allowed ← is_owner_or_operator store.ado info.sender
  ensure allowed unauthorized
  splitter ← or_err store.splitter not_found
  ensure (has_passed splitter.lock env.block) contract_locked
  current_time ← from_seconds (seconds env.block.time)
  lock ← locked_until current_time lock_time
  ok (record store { splitter = some (record splitter { lock = lock }) }, [])

abbrev pub query_splitter : Store → Result Splitter
query_splitter store = or_err store.splitter not_found
