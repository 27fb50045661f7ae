-- ===== src/Timelock/Calls.antt =====
-- The calls of the timelock contract in succession: what came in, what went out, and what is held.
use flexible_pay_crowdfund_a.Base.{
  ℕ, ◌+◌, ◌≡◌, ap, not, Option, List, [], ◌∷◌, ◌++◌, arith, unwrap_or,
}
use flexible_pay_crowdfund_a.Chain.Result.{
  Result, ok, ◌>>=◌, WhenOk, WhenOk-ok, WhenOk-bind, ensure, or_err, or_err-eq-ok, no_locked_funds,
  funds_are_locked,
}
use flexible_pay_crowdfund_a.Chain.Coin.Totals.{amount_of}
use flexible_pay_crowdfund_a.Chain.Dict.{may_load, IsSorted}
use flexible_pay_crowdfund_a.Chain.Message.{Response}
use flexible_pay_crowdfund_a.Chain.Outflow.{outflows, outflows-append, generate_direct_msg-outflow}
use flexible_pay_crowdfund_a.Chain.Deps.{Deps, Env, MessageInfo}
use flexible_pay_crowdfund_a.Ado.Recipient.{Recipient, generate_direct_msg}
use flexible_pay_crowdfund_a.Timelock.State.{EscrowCondition, Store, is_locked}
use flexible_pay_crowdfund_a.Timelock.Handlers.{
  execute_hold_funds, execute_release_funds, execute_release_specific_funds,
}
use flexible_pay_crowdfund_a.Timelock.Totals.{
  in_escrow, sent-Balanced, execute_hold_funds-in_escrow, execute_release_funds-Balanced,
}

-- `ExecuteMsg`, without the messages of the base.
pub data ExecuteMsg : Type 0 where
  hold_funds : Option EscrowCondition → Option Recipient → ExecuteMsg
  release_funds : Option ℕ → Option ℕ → Option ℕ → ExecuteMsg
  release_specific_funds : ℕ → Option ℕ → ExecuteMsg

-- The match of `handle_execute` on the contract's own messages. What `call_action` does before it,
-- and the messages of the base, are left out.
unfoldable pub dispatch : Deps → Env → MessageInfo → Store → ExecuteMsg → Result (Store × Response)
dispatch deps env info store (hold_funds condition recipient) =
    execute_hold_funds deps env info store condition recipient
dispatch deps env info store (release_funds recipient_addr start_after limit) =
    execute_release_funds deps env info store recipient_addr start_after limit
dispatch deps env info store (release_specific_funds owner recipient_addr) =
    execute_release_specific_funds deps env info store owner recipient_addr

-- What comes with a message stays in escrow only if it is to be held.
abbrev pub taken : ℕ → MessageInfo → ExecuteMsg → ℕ
taken d info (hold_funds condition recipient) = amount_of d info.funds
taken d info (release_funds recipient_addr start_after limit) = 0
taken d info (release_specific_funds owner recipient_addr) = 0

abbrev pub Call : Type 0
Call = Env × MessageInfo × ExecuteMsg

abbrev pub run : Deps → Store → List Call → Result (Store × Response)
run deps store [] = ok (store, [])
run deps store ((env, info, msg) ∷ calls) = dispatch deps env info store msg >>= λ first.
    run deps first.0 calls >>= λ rest. ok (rest.0, first.1 ++ rest.1)

abbrev pub all_taken : ℕ → List Call → ℕ
all_taken d [] = 0
all_taken d ((env, info, msg) ∷ calls) = taken d info msg + all_taken d calls

module _ (deps : Deps) (d : ℕ) where
  specific-Balanced :
      (env : Env) (info : MessageInfo) (store : Store) (owner : ℕ) (recipient : Option ℕ)
      {out : Store × Response}
      → IsSorted store.escrows
      → execute_release_specific_funds deps env info store owner recipient ≡ ok out
      → (in_escrow d out.0.escrows + outflows d out.1 ≡ in_escrow d store.escrows)
        × IsSorted out.0.escrows
  unfolding execute_release_specific_funds
  specific-Balanced env info store owner recipient v h =
      let After : Store × Response → Type 0 = λ out.
        (in_escrow d out.0.escrows + outflows d out.1 ≡ in_escrow d store.escrows)
        × IsSorted out.0.escrows in
      let key = deps.concat owner (unwrap_or recipient info.sender) in
      WhenOk-ok After (execute_release_specific_funds deps env info store owner recipient)
        (WhenOk-bind After (or_err (may_load key store.escrows) no_locked_funds) _ λ e found.
          WhenOk-bind After (ensure (not (is_locked e env.block)) funds_are_locked) _ λ _ _.
            WhenOk-bind After (generate_direct_msg deps e.recipient e.coins) _ λ msg sent.
              sent-Balanced deps d (in_escrow d store.escrows) key store.escrows [] e msg
                (omega arith, v) (or_err-eq-ok (may_load key store.escrows) no_locked_funds found)
                (generate_direct_msg-outflow deps d e.recipient e.coins sent))
        h

  -- What a call leaves in escrow and sends is what was there and what it took.
  abbrev Kept : Store → ℕ → Store × Response → Type 0
  Kept store n out =
      (in_escrow d out.0.escrows + outflows d out.1 ≡ in_escrow d store.escrows + n)
      × IsSorted out.0.escrows

  dispatch-Kept :
      (env : Env) (info : MessageInfo) (store : Store) (msg : ExecuteMsg) {out : Store × Response}
      → IsSorted store.escrows
      → dispatch deps env info store msg ≡ ok out
      → Kept store (taken d info msg) out
  unfolding dispatch
  dispatch-Kept env info store (hold_funds condition recipient) v h =
      let (amount, silent, sorted) =
        execute_hold_funds-in_escrow deps d env info store condition recipient v h in
      let nothing = ap (outflows d) silent in (omega (arith, amount, nothing), sorted)
  dispatch-Kept env info store (release_funds recipient_addr start_after limit) v h =
      let (amount, sorted) =
        execute_release_funds-Balanced deps d env info store recipient_addr start_after limit v h in
      (omega (arith, amount), sorted)
  dispatch-Kept env info store (release_specific_funds owner recipient_addr) v h =
      let (amount, sorted) = specific-Balanced env info store owner recipient_addr v h in
      (omega (arith, amount), sorted)

  all-Kept :
      (store : Store) (calls : List Call)
      → IsSorted store.escrows
      → WhenOk (Kept store (all_taken d calls)) (run deps store calls)
  all-Kept store [] v = (omega arith, v)
  all-Kept store ((env, info, msg) ∷ calls) v =
      let After = Kept store (taken d info msg + all_taken d calls) in
      WhenOk-bind After (dispatch deps env info store msg) _ λ first e.
        WhenOk-bind After (run deps first.0 calls) _ λ rest h.
          let one = dispatch-Kept env info store msg v e in
          let others =
            WhenOk-ok (Kept first.0 (all_taken d calls)) _ (all-Kept first.0 calls one.1) h in
          let both = outflows-append d first.1 rest.1 in
          let now = one.0 in let then = others.0 in (omega (arith, both, now, then), others.1)

  -- Over any sequence of calls, what the contract has sent in a denomination and what it still holds
  -- in escrow come to what it held before and what came with the calls that hold funds.
  pub run-Kept :
      (store : Store) (calls : List Call) {out : Store × Response}
      → IsSorted store.escrows
      → run deps store calls ≡ ok out
      → (in_escrow d out.0.escrows + outflows d out.1
          ≡ in_escrow d store.escrows + all_taken d calls)
        × IsSorted out.0.escrows
  run-Kept store calls v h = WhenOk-ok _ (run deps store calls) (all-Kept store calls v) h
