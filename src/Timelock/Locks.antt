-- ===== src/Timelock/Locks.antt =====
-- Locked funds of the timelock contract stay, and funds that are not come back.
use flexible_pay_crowdfund_a.Base.{
  ℕ, Bool, not-true, ◌*◌, ◌<◌, ◌≡◌, refl, ap, ◌∙◌, sym, true, false, not, Option, none, some, List,
  [], ◌∷◌, ◌++◌, arith, is_empty, unwrap_or, if◌then◌else◌, Bool-cases, inl, inr, ◌==◌, eqb→eq,
  eqb_self,
}
use flexible_pay_crowdfund_a.Chain.Result.{
  ok, ◌>>=◌, ◌>>◌, WhenOk, WhenOk-ok, WhenOk-bind, ensure, ensure-eq-ok, or_err, or_err-eq-ok,
  not_found, no_locked_funds, funds_are_locked,
}
use flexible_pay_crowdfund_a.Chain.Dict.{
  Dict, may_load, save, remove, may_load-save, may_load-remove, remove-save, remove_absent,
}
use flexible_pay_crowdfund_a.Chain.Message.{Response, new_sub_msg, bank_send}
use flexible_pay_crowdfund_a.Chain.Deps.{Deps, Env, MessageInfo, BlockInfo}
use flexible_pay_crowdfund_a.Chain.Time.{seconds, is_in_past}
use flexible_pay_crowdfund_a.Ado.Recipient.{from_string, generate_direct_msg}
use flexible_pay_crowdfund_a.Timelock.State.{
  Escrow, expiration, Store, is_locked, validate, get_keys_for_recipient,
}
use flexible_pay_crowdfund_a.Timelock.Calls.{
  ExecuteMsg, hold_funds, release_funds, release_specific_funds, dispatch,
}
use flexible_pay_crowdfund_a.Timelock.Handlers.{
  held, execute_hold_funds, release, execute_release_funds, execute_release_specific_funds,
}

-- The messages that release funds.
abbrev pub releases : ExecuteMsg → Bool
releases (hold_funds condition recipient) = false
releases (release_funds recipient_addr start_after limit) = true
releases (release_specific_funds owner recipient) = true

module _ (deps : Deps) (k : ℕ) (e : Escrow) where
  -- Another entry is removed, since this one is locked.
  others_removed :
      (block : BlockInfo) (key : ℕ) (escrows : Dict Escrow) (other : Escrow)
      → may_load k escrows ≡ some e
      → is_locked e block ≡ true
      → may_load key escrows ≡ some other
      → is_locked other block ≡ false
      → may_load k (remove key escrows) ≡ some e
  others_removed block key escrows other mine locked found free = elim (Bool-cases (k == key)) [
    | inl same ↦
        let twice : e ≡ other = cc (mine, found, eqb→eq k key same) in
        let clash : true ≡ false = sym locked ∙ ap (λ x. is_locked x block) twice ∙ free in
        absurd (cc clash)
    | inr differ ↦
        may_load-remove k key escrows
        ∙ ap (λ b. if b then none else may_load k escrows) differ
        ∙ mine
  ]

  release-locked :
      (block : BlockInfo) (keys : List ℕ) (acc : Dict Escrow × Response)
      → may_load k acc.0 ≡ some e
      → is_locked e block ≡ true
      → WhenOk (λ out. may_load k out.0 ≡ some e) (release deps block keys acc)
  unfolding release
  release-locked block [] acc mine locked = mine
  release-locked block (key ∷ keys) (escrows, msgs) mine locked =
      let After : Dict Escrow × Response → Type 0 = λ out. may_load k out.0 ≡ some e in
      WhenOk-bind After (or_err (may_load key escrows) not_found) _ λ other found.
        elim (Bool-cases (is_locked other block)) [
          | inl h ↦ rw h (release-locked block keys (escrows, msgs) mine locked)
          | inr free ↦ rw free (
              WhenOk-bind After
                (generate_direct_msg deps other.recipient other.coins >>= λ msg.
                  ok (remove key escrows, msgs ++ msg ∷ []))
                _
                λ acc made.
                  let kept =
                    others_removed block key escrows other mine locked
                      (or_err-eq-ok (may_load key escrows) not_found found) free in
                  release-locked block keys acc
                    (WhenOk-ok After _
                      (WhenOk-bind After (generate_direct_msg deps other.recipient other.coins) _
                        λ msg _. kept)
                      made)
                    locked)
        ]

  -- `ReleaseFunds` leaves them.
  pub execute_release_funds-locked :
      (env : Env) (info : MessageInfo) (store : Store) (recipient_addr start_after limit : Option ℕ)
      {out : Store × Response}
      → may_load k store.escrows ≡ some e
      → is_locked e env.block ≡ true
      → execute_release_funds deps env info store recipient_addr start_after limit ≡ ok out
      → may_load k out.0.escrows ≡ some e
  unfolding execute_release_funds
  execute_release_funds-locked env info store recipient_addr start_after limit mine locked h =
      let After : Store × Response → Type 0 = λ out. may_load k out.0.escrows ≡ some e in
      let keys =
        get_keys_for_recipient store (unwrap_or recipient_addr info.sender) start_after limit in
      WhenOk-ok After (execute_release_funds deps env info store recipient_addr start_after limit)
        (WhenOk-bind After (ensure (not (is_empty keys)) no_locked_funds) _ λ _ _.
          WhenOk-bind After (release deps env.block keys (store.escrows, [])) _ λ acc released.
            WhenOk-bind After (ensure (not (is_empty acc.1)) funds_are_locked) _ λ _ _.
              WhenOk-ok _ (release deps env.block keys (store.escrows, []))
                (release-locked env.block keys (store.escrows, []) mine locked) released)
        h

  pub execute_release_specific_funds-locked :
      (env : Env) (info : MessageInfo) (store : Store) (owner : ℕ) (recipient : Option ℕ)
      {out : Store × Response}
      → may_load k store.escrows ≡ some e
      → is_locked e env.block ≡ true
      → execute_release_specific_funds deps env info store owner recipient ≡ ok out
      → may_load k out.0.escrows ≡ some e
  unfolding execute_release_specific_funds
  execute_release_specific_funds-locked env info store owner recipient mine locked h =
      let After : Store × Response → Type 0 = λ out. may_load k out.0.escrows ≡ some e in
      let key = deps.concat owner (unwrap_or recipient info.sender) in
      WhenOk-ok After (execute_release_specific_funds deps env info store owner recipient)
        (WhenOk-bind After (or_err (may_load key store.escrows) no_locked_funds) _ λ other found.
          WhenOk-bind After (ensure (not (is_locked other env.block)) funds_are_locked) _ λ _ free.
            WhenOk-bind After (generate_direct_msg deps other.recipient other.coins) _ λ msg _.
              others_removed env.block key store.escrows other mine locked
                (or_err-eq-ok (may_load key store.escrows) no_locked_funds found)
                (not-true _ (ensure-eq-ok _ funds_are_locked free)))
        h

  -- An escrow that is locked stays as it is, whoever sends which of the two messages that release
  -- funds.
  pub dispatch-locked :
      (env : Env) (info : MessageInfo) (store : Store) (msg : ExecuteMsg) {out : Store × Response}
      → releases msg ≡ true
      → may_load k store.escrows ≡ some e
      → is_locked e env.block ≡ true
      → dispatch deps env info store msg ≡ ok out
      → may_load k out.0.escrows ≡ some e
  unfolding dispatch
  dispatch-locked env info store (hold_funds condition recipient) release mine locked h = cc
  dispatch-locked env info store (release_funds recipient_addr start_after limit) release mine
        locked h =
      execute_release_funds-locked env info store recipient_addr start_after limit mine locked h
  dispatch-locked env info store (release_specific_funds owner recipient) release mine locked h =
      execute_release_specific_funds-locked env info store owner recipient mine locked h

module _ (deps : Deps) (env : Env) (info : MessageInfo) (store : Store) (t address : ℕ) where
  -- An escrow until a time, for a recipient without a message.
  abbrev pub new_escrow : Escrow
  new_escrow = record {
    coins = info.funds;
    condition = some (expiration t);
    recipient = from_string address;
    recipient_addr = address;
  }

  hold_fresh :
      {out : Store × Response}
      → may_load (deps.concat info.sender address) store.escrows ≡ none
      → execute_hold_funds deps env info store (some (expiration t)) (some (from_string address))
        ≡ ok out
      → out.0
        ≡ record store { escrows = save (deps.concat info.sender address) new_escrow store.escrows }
  unfolding execute_hold_funds held
  hold_fresh {out} fresh h =
      let After : Store × Response → Type 0 = λ out. out.0 ≡ record store {
        escrows = save (deps.concat info.sender address) new_escrow store.escrows;
      } in
      WhenOk-ok After
        (execute_hold_funds deps env info store (some (expiration t)) (some (from_string address)))
        (WhenOk-bind After (deps.validate address) _ λ _ _. rw fresh (
          WhenOk-bind After (validate deps new_escrow env.block >> ok new_escrow) _ λ e valid.
            let same : e ≡ new_escrow =
              WhenOk-ok (λ e. e ≡ new_escrow) _
                (WhenOk-bind (λ e. e ≡ new_escrow) (validate deps new_escrow env.block) _
                  λ _ _. refl)
                valid in
            ap
              (λ e. record store {
                escrows = save (deps.concat info.sender address) e store.escrows;
              })
              same))
        h

  open_then :
      (block : BlockInfo) → t < seconds block.time * 1000 → is_locked new_escrow block ≡ false
  unfolding is_locked is_in_past
  open_then block h = ground arith

  -- Where the sender holds nothing yet for a recipient without a message, funds held for it until a
  -- time come back: released after that time, by anyone, they are sent whole to what the recipient's
  -- address resolves to, and the storage is as it was.
  pub execute_hold_funds-execute_release_specific_funds :
      (later : Env) (caller : MessageInfo) (resolved : ℕ) {out : Store × Response}
      → may_load (deps.concat info.sender address) store.escrows ≡ none
      → execute_hold_funds deps env info store (some (expiration t)) (some (from_string address))
        ≡ ok out
      → t < seconds later.block.time * 1000
      → deps.get_raw_address address ≡ ok resolved
      → execute_release_specific_funds deps later caller out.0 info.sender (some address)
        ≡ ok (store, new_sub_msg (bank_send resolved info.funds) ∷ [])
  unfolding execute_release_specific_funds generate_direct_msg
  execute_hold_funds-execute_release_specific_funds later caller resolved {out} fresh h past known =
      let key = deps.concat info.sender address in
      let stored : may_load key (save key new_escrow store.escrows) ≡ some new_escrow =
        may_load-save key key new_escrow store.escrows
        ∙ ap (λ b. if b then some new_escrow else may_load key store.escrows) (eqb_self key) in
      let back : remove key (save key new_escrow store.escrows) ≡ store.escrows =
        remove-save key new_escrow store.escrows ∙ remove_absent key store.escrows fresh in
      ap (λ s. execute_release_specific_funds deps later caller s info.sender (some address))
        (hold_fresh fresh h)
      ∙ rw (stored, open_then later.block past, known)
          (ap
            (λ d.
              ok (record store { escrows = d }, new_sub_msg (bank_send resolved info.funds) ∷ []))
            back)
