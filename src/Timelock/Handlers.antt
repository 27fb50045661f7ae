-- ===== src/Timelock/Handlers.antt =====
-- The handlers and queries of contracts/finance/andromeda-timelock/src/contract.rs.
use flexible_pay_crowdfund_a.Base.{
  ℕ, not, Option, none, some, List, [], ◌∷◌, ◌++◌, is_empty, unwrap_or, if◌then◌else◌,
}
use flexible_pay_crowdfund_a.Chain.Result.{
  Result, ok, ◌>>=◌, ◌>>◌, ensure, or_err, not_found, no_locked_funds, funds_are_locked,
}
use flexible_pay_crowdfund_a.Chain.Dict.{Dict, may_load, save, remove}
use flexible_pay_crowdfund_a.Chain.Message.{Response}
use flexible_pay_crowdfund_a.Chain.Deps.{Deps, Env, MessageInfo, BlockInfo}
use flexible_pay_crowdfund_a.Ado.Recipient.{Recipient, from_string, generate_direct_msg}
use flexible_pay_crowdfund_a.Timelock.State.{
  Escrow, EscrowCondition, Store, is_locked, validate, add_funds, get_keys_for_recipient,
}

-- The escrow of new funds: added to one that is there, under its condition, or checked.
unfoldable pub held : Deps → Env → Escrow → Option Escrow → Result Escrow
unfolding add_funds validate
held deps env escrow none = validate deps escrow env.block >> ok escrow
held deps env escrow (some existing) =
    add_funds (record escrow { condition = existing.condition }) existing.coins

unfoldable pub execute_hold_funds :
    Deps
    → Env
    → MessageInfo
    → Store
    → Option EscrowCondition
    → Option Recipient
    → Result (Store × Response)
unfolding held
execute_hold_funds deps env info store condition recipient = do
  let rec = unwrap_or recipient (from_string info.sender)
  deps.validate rec.address
  let key = deps.concat info.sender rec.address
  let new : Escrow = record {
    coins = info.funds;
    condition = condition;
    recipient = rec;
    recipient_addr = rec.address;
  }
  escrow ← held deps env new (may_load key store.escrows)
  ok (record store { escrows = save key escrow store.escrows }, [])

-- The loop over the keys: an escrow that is not locked is sent and removed.
unfoldable pub release :
    Deps → BlockInfo → List ℕ → Dict Escrow × Response → Result (Dict Escrow × Response)
release deps block [] acc = ok acc
release deps block (key ∷ keys) (escrows, msgs) = do
  funds ← or_err (may_load key escrows) not_found
  let sending = (do
    msg ← generate_direct_msg deps funds.recipient funds.coins
    ok (remove key escrows, msgs ++ msg ∷ []))
  acc ← if is_locked funds block then ok (escrows, msgs) else sending
  release deps block keys acc

unfoldable pub execute_release_funds :
    Deps → Env → MessageInfo → Store → Option ℕ → Option ℕ → Option ℕ → Result (Store × Response)
unfolding release
execute_release_funds deps env info store recipient_addr start_after limit = do
  let keys = get_keys_for_recipient store (unwrap_or recipient_addr info.sender) start_after limit
  ensure (not (is_empty keys)) no_locked_funds
  (escrows, msgs) ← release deps env.block keys (store.escrows, [])
  ensure (not (is_empty msgs)) funds_are_locked
  ok (record store { escrows = escrows }, msgs)

unfoldable pub execute_release_specific_funds :
    Deps → Env → MessageInfo → Store → ℕ → Option ℕ → Result (Store × Response)
execute_release_specific_funds deps env info store owner recipient = do
  let key = deps.concat owner (unwrap_or recipient info.sender)
  escrow ← or_err (may_load key store.escrows) no_locked_funds
  ensure (not (is_locked escrow env.block)) funds_are_locked
  msg ← generate_direct_msg deps escrow.recipient escrow.coins
  ok (record store { escrows = remove key store.escrows }, msg ∷ [])

unfoldable pub query_held_funds : Deps → Store → ℕ → ℕ → Option Escrow
query_held_funds deps store owner recipient = may_load (deps.concat owner recipient) store.escrows

abbrev pub load_all : Dict Escrow → List ℕ → Result (List Escrow)
load_all d [] = ok []
load_all d (k ∷ ks) = do e ← or_err (may_load k d) not_found; rest ← load_all d ks; ok (e ∷ rest)

unfoldable pub query_funds_for_recipient : Store → ℕ → Option ℕ → Option ℕ → Result (List Escrow)
query_funds_for_recipient store recipient start_after limit =
    load_all store.escrows (get_keys_for_recipient store recipient start_after limit)
