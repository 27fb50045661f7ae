-- ===== src/Tests/Escrows.antt =====
-- Funds in the timelock contract: 5 holds 50 for 6 until the second 100.
use flexible_pay_crowdfund_a.Base.{
  ◌<◌, length, ℕ, ◌+◌, ◌≡◌, refl, arith, true, none, some, List, [], ◌∷◌, ◌⊎◌, ◌≤◌, ◌↔◌,
}
use flexible_pay_crowdfund_a.Chain.Result.{ok, err, no_locked_funds, funds_are_locked}
use flexible_pay_crowdfund_a.Chain.Dict.{save, remove, may_load, IsSorted}
use flexible_pay_crowdfund_a.Chain.Outflow.{outflows}
use flexible_pay_crowdfund_a.Chain.Message.{Response, new_sub_msg, bank_send}
use flexible_pay_crowdfund_a.Chain.Deps.{MessageInfo}
use flexible_pay_crowdfund_a.Chain.Time.{is_in_past}
use flexible_pay_crowdfund_a.Ado.Recipient.{from_string, generate_direct_msg}
use flexible_pay_crowdfund_a.Timelock.State.{
  Escrow, expiration, Store, is_locked, validate, get_keys_for_recipient, no_duplicates,
  sort_by_denom,
}
use flexible_pay_crowdfund_a.Timelock.Handlers.{
  held, execute_hold_funds, release, execute_release_funds, execute_release_specific_funds,
}
use flexible_pay_crowdfund_a.Timelock.Totals.{in_escrow}
use flexible_pay_crowdfund_a.Timelock.Calls.{
  Call, hold_funds, release_funds, dispatch, run, run-Kept,
}
use flexible_pay_crowdfund_a.Timelock.Locks.{
  execute_hold_funds-execute_release_specific_funds, dispatch-locked,
}
use flexible_pay_crowdfund_a.Timelock.Release.{Done, unlocked, execute_release_funds_total}
use flexible_pay_crowdfund_a.Timelock.Distinct.{count, no_duplicates-sort_by_denom}
use flexible_pay_crowdfund_a.Tests.{value_or, coin, deps, at_second, ado}

abbrev nothing_held : Store
nothing_held = record { ado = ado; escrows = [] }

abbrev payer : MessageInfo
payer = record { sender = 5; funds = coin 1 50 ∷ [] }

abbrev anyone : MessageInfo
anyone = record { sender = 9; funds = [] }

abbrev calls : List Call
calls =
    (at_second 10, payer, hold_funds (some (expiration 100000)) (some (from_string 6)))
    ∷ (
      at_second 20,
      record { sender = 7; funds = coin 1 30 ∷ [] },
      hold_funds none (some (from_string 6)),
    )
    ∷ (at_second 30, anyone, release_funds (some 6) none none)
    ∷ []

abbrev after_calls : Store × Response
after_calls = value_or (nothing_held, []) (run deps nothing_held calls)

calls_succeed : run deps nothing_held calls ≡ ok after_calls
unfolding dispatch execute_hold_funds held validate is_locked is_in_past save execute_release_funds
    release get_keys_for_recipient generate_direct_msg remove
calls_succeed = refl

run-Kept_example :
    (in_escrow 1 after_calls.0.escrows + outflows 1 after_calls.1 ≡ 80)
    × IsSorted after_calls.0.escrows
run-Kept_example = run-Kept deps 1 nothing_held calls tt calls_succeed

abbrev first_held : Store × Response
first_held =
    value_or (nothing_held, [])
      (execute_hold_funds deps (at_second 10) payer nothing_held (some (expiration 100000))
        (some (from_string 6)))

first_succeeds :
    execute_hold_funds deps
      (at_second 10)
      payer
      nothing_held
      (some (expiration 100000))
      (some (from_string 6))
    ≡ ok first_held
unfolding execute_hold_funds held validate is_locked is_in_past save
first_succeeds = refl

execute_hold_funds-execute_release_specific_funds_example :
    execute_release_specific_funds deps (at_second 200) anyone first_held.0 5 (some 6)
    ≡ ok (nothing_held, new_sub_msg (bank_send 6 (coin 1 50 ∷ [])) ∷ [])
execute_hold_funds-execute_release_specific_funds_example =
    execute_hold_funds-execute_release_specific_funds deps (at_second 10) payer nothing_held 100000
      6 (at_second 200) anyone 6 refl first_succeeds (omega arith) refl

abbrev locked : Escrow
locked = record {
  coins = coin 1 50 ∷ [];
  condition = some (expiration 100000);
  recipient = from_string 6;
  recipient_addr = 6;
}

abbrev free : Escrow
free = record locked { condition = none }

abbrev both : Store
both = record { ado = ado; escrows = (5006, locked) ∷ (7006, free) ∷ [] }

still_locked : is_locked locked (at_second 30).block ≡ true
unfolding is_locked is_in_past
still_locked = refl

abbrev released : Store × Response
released =
    value_or (both, []) (execute_release_funds deps (at_second 30) anyone both (some 6) none none)

release_succeeds :
    execute_release_funds deps (at_second 30) anyone both (some 6) none none ≡ ok released
unfolding execute_release_funds release get_keys_for_recipient is_locked is_in_past
    generate_direct_msg remove
release_succeeds = refl

release_dispatched :
    dispatch deps (at_second 30) anyone both (release_funds (some 6) none none) ≡ ok released
unfolding dispatch
release_dispatched = release_succeeds

dispatch-locked_example : may_load 5006 released.0.escrows ≡ some locked
dispatch-locked_example =
    dispatch-locked deps 5006 locked (at_second 30) anyone both (release_funds (some 6) none none)
      refl refl still_locked release_dispatched

abbrev page_keys : List ℕ
page_keys = 5006 ∷ 7006 ∷ []

page : get_keys_for_recipient both 6 none none ≡ page_keys
unfolding get_keys_for_recipient
page = refl

execute_release_funds_total_example :
    ((length page_keys ≡ 0)
      × (execute_release_funds deps (at_second 30) anyone both (some 6) none none
          ≡ err no_locked_funds))
    ⊎ (((0 < length page_keys)
          × (unlocked (at_second 30).block page_keys both.escrows ≡ 0)
          × (execute_release_funds deps (at_second 30) anyone both (some 6) none none
              ≡ err funds_are_locked))
        ⊎ ((0 < unlocked (at_second 30).block page_keys both.escrows)
            × (out : Store × Response) × (execute_release_funds deps
                  (at_second 30)
                  anyone
                  both
                  (some 6)
                  none
                  none
                ≡ ok out)
            × (length out.1 ≡ unlocked (at_second 30).block page_keys both.escrows)
            × Done (at_second 30).block page_keys out.0.escrows))
execute_release_funds_total_example =
    execute_release_funds_total deps (λ a. a) (λ a. refl) (at_second 30) anyone both (some 6) none
      none (omega arith, tt) page

no_duplicates-sort_by_denom_example :
    (no_duplicates (sort_by_denom (coin 2 1 ∷ coin 1 1 ∷ [])) ≡ ok tt)
    ↔ ((0 < length (coin 2 1 ∷ coin 1 1 ∷ [])) × ((d : ℕ) → count d (coin 2 1 ∷ coin 1 1 ∷ []) ≤ 1))
no_duplicates-sort_by_denom_example = no_duplicates-sort_by_denom (coin 2 1 ∷ coin 1 1 ∷ [])
