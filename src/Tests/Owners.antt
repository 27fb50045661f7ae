-- ===== src/Tests/Owners.antt =====
-- Ownership on the small chain: the owner 3 offers the contract to 12 until second 200.
use flexible_pay_crowdfund_a.Base.{◌*◌, ◌≡◌, ◌⊎◌, refl, true, none, some, Option, []}
use flexible_pay_crowdfund_a.Chain.Result.{ok}
use flexible_pay_crowdfund_a.Chain.Deps.{MessageInfo, Expiration, at_time}
use flexible_pay_crowdfund_a.Ado.Base.{Ado, OwnershipMessage, is_contract_owner}
use flexible_pay_crowdfund_a.Ado.Ownership.{
  update_owner, unexpired, accept_ownership, execute_ownership,
}
use flexible_pay_crowdfund_a.Ado.Ownership.Offer.{
  execute_ownership_authorized, update_owner-accept_ownership,
}
use flexible_pay_crowdfund_a.Tests.{deps, at_second, ado}

abbrev owner : MessageInfo
owner = record { sender = 3; funds = [] }

abbrev candidate : MessageInfo
candidate = record { sender = 12; funds = [] }

abbrev until : Option Expiration
until = some (at_time (200 * 1000000000))

abbrev offered : Ado
offered = record ado { potential_owner = some 12; potential_owner_expiration = until }

abbrev passed_on : Ado
passed_on = record ado { owner = some 12 }

offer_succeeds : update_owner deps owner ado 12 until ≡ ok offered
unfolding update_owner is_contract_owner
offer_succeeds = refl

acceptance_succeeds :
    execute_ownership deps (at_second 150) candidate offered OwnershipMessage.accept_ownership
    ≡ ok passed_on
unfolding execute_ownership accept_ownership
acceptance_succeeds = refl

execute_ownership_authorized_example :
    (offered.owner ≡ some 12)
    ⊎ ((offered.potential_owner ≡ some 12)
        × (unexpired deps (at_second 150) until ≡ true)
        × (passed_on.owner ≡ some 12))
execute_ownership_authorized_example =
    execute_ownership_authorized deps (at_second 150) candidate offered
      OwnershipMessage.accept_ownership acceptance_succeeds

update_owner-accept_ownership_example :
    accept_ownership deps (at_second 150) (record { sender = 12; funds = [] }) offered
    ≡ ok (record ado { owner = some 12; potential_owner = none; potential_owner_expiration = none })
update_owner-accept_ownership_example =
    update_owner-accept_ownership deps (at_second 100) owner ado 12 until (at_second 150) [] refl
      offer_succeeds refl
