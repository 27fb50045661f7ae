-- ===== src/Ado/Ownership.antt =====
-- Passing the ownership of a contract on: `update_owner`, `revoke_ownership_offer`,
-- `accept_ownership` and `disown` of packages/std/src/ado_contract/ownership.rs.
pub mod Offer
use flexible_pay_crowdfund_a.Base.{
  ℕ, ◌≡◌, ◌≢◌, refl, ap, ◌∙◌, sym, subst, Bool, true, false, not, Option, none, some, ◌==◌, arith,
  if◌then◌else◌,
}
use flexible_pay_crowdfund_a.Chain.Result.{
  Result, ok, ◌>>=◌, ◌>>◌, ensure, ensure-eq-ok, or_err, or_err-eq-ok, not_found, unauthorized,
  WhenOk, WhenOk-ok, WhenOk-bind,
}
use flexible_pay_crowdfund_a.Chain.Deps.{Deps, Env, MessageInfo, Expiration}
use flexible_pay_crowdfund_a.Ado.Base.{Ado, OwnershipMessage, is_contract_owner}

unfoldable pub update_owner : Deps → MessageInfo → Ado → ℕ → Option Expiration → Result Ado
unfolding is_contract_owner
update_owner deps info ado new_owner expiration = do
  is_owner ← is_contract_owner ado info.sender
  ensure is_owner unauthorized
  is_new ← is_contract_owner ado new_owner
  ensure (not is_new) unauthorized
  new_owner_addr ← deps.addr_validate new_owner
  ok (record ado { potential_owner = some new_owner_addr; potential_owner_expiration = expiration })

unfoldable pub revoke_ownership_offer : MessageInfo → Ado → Result Ado
unfolding is_contract_owner
revoke_ownership_offer info ado = do
  is_owner ← is_contract_owner ado info.sender
  ensure is_owner unauthorized
  ok (record ado { potential_owner = none; potential_owner_expiration = none })

-- An offer without an expiration does not expire.
abbrev pub unexpired : Deps → Env → Option Expiration → Bool
unexpired deps env none = true
unexpired deps env (some exp) = not (deps.is_expired exp env.block)

unfoldable pub accept_ownership : Deps → Env → MessageInfo → Ado → Result Ado
accept_ownership deps env info ado = do
  new_owner_addr ← or_err ado.potential_owner not_found
  ensure (info.sender == new_owner_addr) unauthorized
  ensure (unexpired deps env ado.potential_owner_expiration) unauthorized
  ok (record ado {
    owner = some new_owner_addr;
    potential_owner = none;
    potential_owner_expiration = none;
  })

-- `Addr::unchecked("null")`
abbrev pub null_address : ℕ
null_address = 1

unfoldable pub disown : MessageInfo → Ado → Result Ado
unfolding is_contract_owner
disown info ado = do
  is_owner ← is_contract_owner ado info.sender
  ensure is_owner unauthorized
  ok (record ado { owner = some null_address })

unfoldable pub execute_ownership : Deps → Env → MessageInfo → Ado → OwnershipMessage → Result Ado
execute_ownership deps env info ado (OwnershipMessage.update_owner new_owner expiration) =
    update_owner deps info ado new_owner expiration
execute_ownership deps env info ado OwnershipMessage.revoke_ownership_offer =
    revoke_ownership_offer info ado
execute_ownership deps env info ado OwnershipMessage.accept_ownership =
    accept_ownership deps env info ado
execute_ownership deps env info ado OwnershipMessage.disown = disown info ado
