-- ===== src/Timelock/Totals.antt =====
-- The timelock contract pays out what it was given: amounts held and sent, per denomination.
use flexible_pay_crowdfund_a.Base.{
  ℕ, ◌+◌, ◌≡◌, refl, ap, not, Option, none, some, List, [], ◌∷◌, ◌++◌, arith, is_empty, unwrap_or,
  Bool-cases, inl, inr,
}
use flexible_pay_crowdfund_a.Chain.Result.{
  ok, ◌>>=◌, WhenOk, WhenOk-ok, WhenOk-bind, ensure, or_err, or_err-eq-ok, not_found,
  no_locked_funds, funds_are_locked,
}
use flexible_pay_crowdfund_a.Chain.Coin.{merge_coins}
use flexible_pay_crowdfund_a.Chain.Coin.Totals.{amount_of, merge_coins-amount_of}
use flexible_pay_crowdfund_a.Chain.Dict.{
  Dict, may_load, save, remove, IsSorted, save-IsSorted, remove-IsSorted, total, measure,
  total-save, total-remove,
}
use flexible_pay_crowdfund_a.Chain.Message.{SubMsg, Response}
use flexible_pay_crowdfund_a.Chain.Outflow.{
  outflow, outflows, outflows-append, generate_direct_msg-outflow,
}
use flexible_pay_crowdfund_a.Chain.Deps.{Deps, Env, MessageInfo, BlockInfo}
use flexible_pay_crowdfund_a.Ado.Recipient.{Recipient, from_string, generate_direct_msg}
use flexible_pay_crowdfund_a.Timelock.State.{
  Escrow, EscrowCondition, Store, is_locked, validate, add_funds, get_keys_for_recipient,
}
use flexible_pay_crowdfund_a.Timelock.Handlers.{
  held, execute_hold_funds, release, execute_release_funds,
}

abbrev pub held_coins : ℕ → Escrow → ℕ
held_coins d e = amount_of d e.coins

-- What is held in escrow.
abbrev pub in_escrow : ℕ → Dict Escrow → ℕ
in_escrow d escrows = total (held_coins d) escrows

module _ (deps : Deps) (d : ℕ) where
  held-amount :
      (env : Env) (new : Escrow) (existing : Option Escrow)
      → WhenOk
          (λ e. amount_of d e.coins ≡ amount_of d new.coins + measure (held_coins d) existing)
          (held deps env new existing)
  unfolding held add_funds
  held-amount env new none = WhenOk-bind _ (validate deps new env.block) _ λ _ _. omega arith
  held-amount env new (some e) =
      WhenOk-bind _ (merge_coins new.coins e.coins) _
        λ coins merged. merge_coins-amount_of d new.coins e.coins merged

  saved-in_escrow :
      (key : ℕ) (new : Escrow) (e : Escrow) (escrows : Dict Escrow)
      → IsSorted escrows
      → amount_of d e.coins ≡ amount_of d new.coins + measure (held_coins d) (may_load key escrows)
      → in_escrow d (save key e escrows) ≡ in_escrow d escrows + amount_of d new.coins
  saved-in_escrow key new e escrows v h =
      let t = total-save (held_coins d) key e escrows v in omega (arith, t, h)

  -- Holding funds adds exactly what came with the message to what is in escrow, in every
  -- denomination, and sends nothing.
  pub execute_hold_funds-in_escrow :
      (env : Env) (info : MessageInfo) (store : Store) (condition : Option EscrowCondition)
      (recipient : Option Recipient) {out : Store × Response}
      → IsSorted store.escrows
      → execute_hold_funds deps env info store condition recipient ≡ ok out
      → (in_escrow d out.0.escrows ≡ in_escrow d store.escrows + amount_of d info.funds)
        × (out.1 ≡ [])
        × IsSorted out.0.escrows
  unfolding execute_hold_funds
  execute_hold_funds-in_escrow env info store condition recipient v h =
      let After : Store × Response → Type 0 = λ out.
        (in_escrow d out.0.escrows ≡ in_escrow d store.escrows + amount_of d info.funds)
        × (out.1 ≡ [])
        × IsSorted out.0.escrows in
      let rec = unwrap_or recipient (from_string info.sender) in
      let key = deps.concat info.sender rec.address in
      let new : Escrow = record {
        coins = info.funds;
        condition = condition;
        recipient = rec;
        recipient_addr = rec.address;
      } in
      WhenOk-ok After (execute_hold_funds deps env info store condition recipient)
        (WhenOk-bind After (deps.validate rec.address) _ λ _ _.
          WhenOk-bind After (held deps env new (may_load key store.escrows)) _ λ e kept. (
            saved-in_escrow key new e store.escrows v
                (WhenOk-ok _ _ (held-amount env new (may_load key store.escrows)) kept),
            refl,
            save-IsSorted key e store.escrows v,
          ))
        h

  -- What is left in escrow and what has been sent come to the same.
  abbrev pub Balanced : ℕ → Dict Escrow × Response → Type 0
  Balanced n acc = (in_escrow d acc.0 + outflows d acc.1 ≡ n) × IsSorted acc.0

  pub sent-Balanced :
      (n key : ℕ) (escrows : Dict Escrow) (msgs : Response) (e : Escrow) (msg : SubMsg)
      → Balanced n (escrows, msgs)
      → may_load key escrows ≡ some e
      → outflow d msg.msg ≡ amount_of d e.coins
      → Balanced n (remove key escrows, msgs ++ msg ∷ [])
  sent-Balanced n key escrows msgs e msg b found sent =
      let t = total-remove (held_coins d) key escrows b.1 in
      let lost : measure (held_coins d) (may_load key escrows) ≡ amount_of d e.coins =
        ap (measure (held_coins d)) found in
      let more = outflows-append d msgs (msg ∷ []) in
      let before = b.0 in
      (omega (arith, t, lost, more, before, sent), remove-IsSorted key escrows b.1)

  sending-Balanced :
      (n key : ℕ) (escrows : Dict Escrow) (msgs : Response) (e : Escrow)
      → Balanced n (escrows, msgs)
      → may_load key escrows ≡ some e
      → WhenOk (Balanced n) (
          generate_direct_msg deps e.recipient e.coins >>= λ msg.
          ok (remove key escrows, msgs ++ msg ∷ []))
  sending-Balanced n key escrows msgs e b found =
      WhenOk-bind (Balanced n) (generate_direct_msg deps e.recipient e.coins) _ λ msg sent.
        sent-Balanced n key escrows msgs e msg b found
          (generate_direct_msg-outflow deps d e.recipient e.coins sent)

  release-Balanced :
      (block : BlockInfo) (keys : List ℕ) (n : ℕ) (acc : Dict Escrow × Response)
      → Balanced n acc
      → WhenOk (Balanced n) (release deps block keys acc)
  unfolding release
  release-Balanced block [] n acc b = b
  release-Balanced block (key ∷ keys) n (escrows, msgs) b =
      let After = Balanced n in
      WhenOk-bind After (or_err (may_load key escrows) not_found) _ λ e found.
        elim (Bool-cases (is_locked e block)) [
          | inl locked ↦ rw locked (release-Balanced block keys n (escrows, msgs) b)
          | inr free ↦ rw free (
              WhenOk-bind After
                (generate_direct_msg deps e.recipient e.coins >>= λ msg.
                  ok (remove key escrows, msgs ++ msg ∷ []))
                _
                λ acc made. release-Balanced block keys n acc (
                  WhenOk-ok After _
                    (sending-Balanced n key escrows msgs e b
                      (or_err-eq-ok (may_load key escrows) not_found found))
                    made))
        ]

  -- Releasing a recipient's funds sends exactly what it takes out of escrow, in every denomination.
  pub execute_release_funds-Balanced :
      (env : Env) (info : MessageInfo) (store : Store) (recipient_addr start_after limit : Option ℕ)
      {out : Store × Response}
      → IsSorted store.escrows
      → execute_release_funds deps env info store recipient_addr start_after limit ≡ ok out
      → (in_escrow d out.0.escrows + outflows d out.1 ≡ in_escrow d store.escrows)
        × IsSorted out.0.escrows
  unfolding execute_release_funds
  execute_release_funds-Balanced env info store recipient_addr start_after limit v h =
      let n = in_escrow d store.escrows in
      let After : Store × Response → Type 0 = λ out. Balanced n (out.0.escrows, out.1) in
      let keys =
        get_keys_for_recipient store (unwrap_or recipient_addr info.sender) start_after limit in
      WhenOk-ok After (execute_release_funds deps env info store recipient_addr start_after limit)
        (WhenOk-bind After (ensure (not (is_empty keys)) no_locked_funds) _ λ _ _.
          WhenOk-bind After (release deps env.block keys (store.escrows, [])) _ λ acc released.
            WhenOk-bind After (ensure (not (is_empty acc.1)) funds_are_locked) _ λ _ _.
              WhenOk-ok (Balanced n) (release deps env.block keys (store.escrows, []))
                (release-Balanced env.block keys n (store.escrows, []) (omega arith, v)) released)
        h
