-- ===== src/Ado/Base.antt =====
-- The storage of `ADOContract` that the contracts read, and the owner checks of
-- packages/std/src/ado_contract/ownership.rs.
use flexible_pay_crowdfund_a.Base.{ℕ, Bool, Option, ◌==◌}
use flexible_pay_crowdfund_a.Chain.Result.{Result, ok, ◌>>=◌, or_err, not_found}
use flexible_pay_crowdfund_a.Chain.Dict.{Dict}
use flexible_pay_crowdfund_a.Chain.Deps.{Expiration}

-- packages/std/src/ado_base/modules.rs
pub record Module : Type 0 where
  pub name : Option ℕ
  pub address : ℕ
  pub is_mutable : Bool

-- packages/std/src/ado_base/permissioning.rs
pub data Permission : Type 0 where
  blacklisted : Option Expiration → Permission
  limited : Option Expiration → ℕ → Permission
  whitelisted : Option Expiration → Permission

pub record PermissionInfo : Type 0 where
  pub permission : Permission
  pub action : ℕ
  pub actor : ℕ

pub data PermissioningMessage : Type 0 where
  set_permission : ℕ → ℕ → Permission → PermissioningMessage
  remove_permission : ℕ → ℕ → PermissioningMessage
  permission_action disable_action_permissioning : ℕ → PermissioningMessage

pub record Ado : Type 0 where
  pub owner : Option ℕ
  pub potential_owner : Option ℕ
  pub potential_owner_expiration : Option Expiration
  pub kernel_address : Option ℕ
  pub permissions : Dict PermissionInfo
  pub permissioned_actions : Dict Bool
  pub module_info : Dict Module
  pub module_idx : Option ℕ

-- packages/std/src/ado_base/ownership.rs
pub data OwnershipMessage : Type 0 where
  update_owner : ℕ → Option Expiration → OwnershipMessage
  revoke_ownership_offer accept_ownership disown : OwnershipMessage

unfoldable pub is_contract_owner : Ado → ℕ → Result Bool
is_contract_owner ado addr = do owner ← or_err ado.owner not_found; ok (addr == owner)

-- Operators are gone from the source: the owner alone passes.
unfoldable pub is_owner_or_operator : Ado → ℕ → Result Bool
unfolding is_contract_owner
is_owner_or_operator ado addr = is_contract_owner ado addr

abbrev pub get_kernel_address : Ado → Result ℕ
get_kernel_address ado = or_err ado.kernel_address not_found
