-- ===== src/Ado/Ownership/Offer.antt =====
-- Who can change the ownership of a contract, and what becomes of an offer.
use flexible_pay_crowdfund_a.Base.{
  ℕ, ◌≡◌, refl, ap, ◌∙◌, sym, Bool, true, not, Option, none, some, ◌==◌, arith, ◌⊎◌, inl, inr,
  eqb→eq, eqb_self, List,
}
use flexible_pay_crowdfund_a.Chain.Result.{
  ok, ensure, ensure-eq-ok, or_err, or_err-eq-ok, not_found, unauthorized, WhenOk, WhenOk-ok,
  WhenOk-bind,
}
use flexible_pay_crowdfund_a.Chain.Coin.{Coin}
use flexible_pay_crowdfund_a.Chain.Deps.{Deps, Env, MessageInfo, Expiration}
use flexible_pay_crowdfund_a.Ado.Base.{Ado, OwnershipMessage, is_contract_owner}
use flexible_pay_crowdfund_a.Ado.Ownership.{
  update_owner, revoke_ownership_offer, unexpired, accept_ownership, disown, execute_ownership,
}

is_contract_owner-owner :
    (ado : Ado) (sender : ℕ) {b : Bool}
    → is_contract_owner ado sender ≡ ok b
    → b ≡ true
    → ado.owner ≡ some sender
unfolding is_contract_owner
is_contract_owner-owner ado sender h passed = ground arith

module _ (deps : Deps) (env : Env) (info : MessageInfo) (ado : Ado) where
  -- Sent by the owner; or by the one whose offer stands, who owns the contract then.
  abbrev Authorized : Ado → Type 0
  Authorized out =
      (ado.owner ≡ some info.sender)
      ⊎ ((ado.potential_owner ≡ some info.sender)
          × (unexpired deps env ado.potential_owner_expiration ≡ true)
          × (out.owner ≡ some info.sender))

  by_owner :
      {is_owner : Bool} {u : Unit {0}}
      → is_contract_owner ado info.sender ≡ ok is_owner
      → ensure is_owner unauthorized ≡ ok u
      → ado.owner ≡ some info.sender
  by_owner asked passed =
      is_contract_owner-owner ado info.sender asked (ensure-eq-ok _ unauthorized passed)

  authorized : (m : OwnershipMessage) → WhenOk Authorized (execute_ownership deps env info ado m)
  unfolding execute_ownership update_owner revoke_ownership_offer accept_ownership disown
  authorized (OwnershipMessage.update_owner n e) =
      WhenOk-bind Authorized (is_contract_owner ado info.sender) _ λ is_owner asked.
        WhenOk-bind Authorized (ensure is_owner unauthorized) _ λ _ passed.
          WhenOk-bind Authorized (is_contract_owner ado n) _ λ is_new _.
            WhenOk-bind Authorized (ensure (not is_new) unauthorized) _ λ _ _.
              WhenOk-bind Authorized (deps.addr_validate n) _ λ a _. inl (by_owner asked passed)
  authorized OwnershipMessage.revoke_ownership_offer =
      WhenOk-bind Authorized (is_contract_owner ado info.sender) _ λ is_owner asked.
        WhenOk-bind Authorized (ensure is_owner unauthorized) _
          λ _ passed. inl (by_owner asked passed)
  authorized OwnershipMessage.accept_ownership =
      WhenOk-bind Authorized (or_err ado.potential_owner not_found) _ λ a offered.
        WhenOk-bind Authorized (ensure (info.sender == a) unauthorized) _ λ _ same.
          WhenOk-bind Authorized
            (ensure (unexpired deps env ado.potential_owner_expiration) unauthorized) _
            λ _ live.
              let is_sender : a ≡ info.sender =
                sym (eqb→eq info.sender a (ensure-eq-ok _ unauthorized same)) in
              inr (
                or_err-eq-ok ado.potential_owner not_found offered ∙ ap some is_sender,
                ensure-eq-ok _ unauthorized live,
                ap some is_sender,
              )
  authorized OwnershipMessage.disown =
      WhenOk-bind Authorized (is_contract_owner ado info.sender) _ λ is_owner asked.
        WhenOk-bind Authorized (ensure is_owner unauthorized) _
          λ _ passed. inl (by_owner asked passed)

  -- A message on the ownership succeeds only for the owner; or for the one to whom an offer stands
  -- that is not expired, who then owns the contract.
  pub execute_ownership_authorized :
      (m : OwnershipMessage) {out : Ado}
      → execute_ownership deps env info ado m ≡ ok out
      → (ado.owner ≡ some info.sender)
        ⊎ ((ado.potential_owner ≡ some info.sender)
            × (unexpired deps env ado.potential_owner_expiration ≡ true)
            × (out.owner ≡ some info.sender))
  execute_ownership_authorized m h =
      WhenOk-ok Authorized (execute_ownership deps env info ado m) (authorized m) h

  -- What an offer stores.
  offers :
      (new_owner : ℕ) (expiration : Option Expiration)
      → WhenOk
          (λ out.
            (a : ℕ) × (deps.addr_validate new_owner ≡ ok a)
            × (out
                ≡ record ado { potential_owner = some a; potential_owner_expiration = expiration }))
          (update_owner deps info ado new_owner expiration)
  unfolding update_owner
  offers new_owner expiration = WhenOk-bind _ (is_contract_owner ado info.sender) _ λ is_owner _.
      WhenOk-bind _ (ensure is_owner unauthorized) _ λ _ _.
        WhenOk-bind _ (is_contract_owner ado new_owner) _ λ is_new _.
          WhenOk-bind _ (ensure (not is_new) unauthorized) _
            λ _ _. WhenOk-bind _ (deps.addr_validate new_owner) _ λ a valid. (a, valid, refl)

  -- An offer that is accepted in time, by the one it was made to, makes that one the owner; no offer
  -- is left, and nothing else of the base's storage has changed.
  pub update_owner-accept_ownership :
      (new_owner : ℕ) (expiration : Option Expiration) (then : Env) (funds : List Coin) {a : ℕ}
      {offered : Ado}
      → deps.addr_validate new_owner ≡ ok a
      → update_owner deps info ado new_owner expiration ≡ ok offered
      → unexpired deps then expiration ≡ true
      → accept_ownership deps then (record { sender = a; funds = funds }) offered
        ≡ ok (record ado {
          owner = some a;
          potential_owner = none;
          potential_owner_expiration = none;
        })
  unfolding accept_ownership
  update_owner-accept_ownership new_owner expiration then funds {a} {offered} valid h live =
      let (b, valid', stored) =
        WhenOk-ok _ (update_owner deps info ado new_owner expiration) (offers new_owner expiration)
          h in
      let same : b ≡ a = ground (arith, valid, valid') in rw (stored, same, eqb_self a, live) refl
