-- ===== src/Ado/Permissioning.antt =====
-- Who may perform an action: packages/std/src/ado_base/permissioning.rs and
-- packages/std/src/ado_contract/permissioning.rs. A permission is stored under the text of the action
-- followed by that of the actor.
pub mod Uses
use flexible_pay_crowdfund_a.Base.{
  ℕ, ◌-◌, Bool, true, false, not, ◌||◌, Option, none, some, unwrap_or, ltb, ◌==◌, if◌then◌else◌,
}
use flexible_pay_crowdfund_a.Chain.Result.{
  Result, ok, err, panicked, ◌>>=◌, ◌>>◌, ensure, unauthorized, underflow,
}
use flexible_pay_crowdfund_a.Chain.Dict.{may_load, save, remove}
use flexible_pay_crowdfund_a.Chain.Message.{AmpPkt}
use flexible_pay_crowdfund_a.Chain.Deps.{Deps, Env, MessageInfo, Expiration}
use flexible_pay_crowdfund_a.Ado.Base.{
  Ado, Permission, blacklisted, limited, whitelisted, PermissionInfo, PermissioningMessage,
  is_contract_owner,
}

-- `if let Some(expiration) = expiration { if expiration.is_expired(…) … }`
abbrev pub has_expired : Deps → Env → Option Expiration → Bool
has_expired deps env none = false
has_expired deps env (some e) = deps.is_expired e env.block

-- `Permission::is_permissioned`
unfoldable pub permits : Deps → Env → Permission → Bool → Bool
permits deps env (blacklisted e) strict = has_expired deps env e
permits deps env (limited e uses) strict =
    if has_expired deps env e then not strict else if uses == 0 then not strict else true
permits deps env (whitelisted e) strict = if has_expired deps env e then not strict else true

-- `u32::checked_sub`
unfoldable pub consume_use : Permission → Result Permission
consume_use (blacklisted e) = ok (blacklisted e)
consume_use (limited e uses) = if ltb 0 uses then ok (limited e (uses - 1)) else err underflow
consume_use (whitelisted e) = ok (whitelisted e)

unfoldable pub get_permission : Deps → Ado → ℕ → ℕ → Option Permission
get_permission deps ado action actor = elim (may_load (deps.concat action actor) ado.permissions) [
  | none ↦ none
  | some i ↦ some i.permission
]

unfoldable pub set_permission : Deps → Ado → ℕ → ℕ → Permission → Ado
set_permission deps ado action actor permission = record ado {
  permissions =
      save (deps.concat action actor)
        (record { permission = permission; action = action; actor = actor }) ado.permissions;
}

unfoldable pub remove_permission : Deps → Ado → ℕ → ℕ → Ado
remove_permission deps ado action actor = record ado {
  permissions = remove (deps.concat action actor) ado.permissions;
}

-- Only a limited permission is written back.
unfoldable pub use_permission : Deps → Ado → ℕ → ℕ → Permission → Result Ado
unfolding consume_use set_permission
use_permission deps ado action actor (blacklisted e) = ok ado
use_permission deps ado action actor (limited e uses) =
    consume_use (limited e uses) >>= λ p. ok (set_permission deps ado action actor p)
use_permission deps ado action actor (whitelisted e) = ok ado

abbrev pub is_action_permissioned : Ado → ℕ → Bool
is_action_permissioned ado action = unwrap_or (may_load action ado.permissioned_actions) false

-- What follows for one who is not the owner.
unfoldable pub check_permission : Deps → Ado → Env → ℕ → ℕ → Option Permission → Bool → Result Ado
unfolding permits use_permission
check_permission deps ado env action actor none strict = ensure (not strict) unauthorized >> ok ado
check_permission deps ado env action actor (some p) strict =
    ensure (permits deps env p strict) unauthorized >> use_permission deps ado action actor p

unfoldable pub is_permissioned : Deps → Ado → Env → ℕ → ℕ → Result Ado
unfolding check_permission get_permission is_contract_owner
is_permissioned deps ado env action actor = do
  is_owner ← is_contract_owner ado actor
  let checked =
      check_permission deps ado env action actor (get_permission deps ado action actor)
        (is_action_permissioned ado action)
  if is_owner then ok ado else checked

unfoldable pub is_permissioned_strict : Deps → Ado → Env → ℕ → ℕ → Result Ado
unfolding check_permission get_permission is_contract_owner
is_permissioned_strict deps ado env action actor = do
  is_owner ← is_contract_owner ado actor
  let checked =
      check_permission deps ado env action actor (get_permission deps ado action actor) true
  if is_owner then ok ado else checked

-- `.is_ok()` of a call, with what the call has written; an error comes before any write.
abbrev pub attempt : Result Ado → Ado → Result (Bool × Ado)
attempt (ok ado') ado = ok (true, ado')
attempt (err e) ado = ok (false, ado)
attempt panicked ado = panicked

-- With a packet, its origin and its previous sender are both tried, and both may use a permission.
unfoldable pub is_context_permissioned :
    Deps → MessageInfo → Env → Option AmpPkt → Ado → ℕ → Result (Bool × Ado)
unfolding is_permissioned
is_context_permissioned deps info env none ado action =
    attempt (is_permissioned deps ado env action info.sender) ado
is_context_permissioned deps info env (some pkt) ado action = do
  (origin, ado1) ← attempt (is_permissioned deps ado env action pkt.ctx.origin) ado
  (previous, ado2) ← attempt (is_permissioned deps ado1 env action pkt.ctx.previous_sender) ado1
  ok (origin || previous, ado2)

unfoldable pub is_context_permissioned_strict :
    Deps → MessageInfo → Env → Option AmpPkt → Ado → ℕ → Result (Bool × Ado)
unfolding is_permissioned_strict
is_context_permissioned_strict deps info env none ado action =
    attempt (is_permissioned_strict deps ado env action info.sender) ado
is_context_permissioned_strict deps info env (some pkt) ado action = do
  (origin, ado1) ← attempt (is_permissioned_strict deps ado env action pkt.ctx.origin) ado
  (previous, ado2) ←
      attempt (is_permissioned_strict deps ado1 env action pkt.ctx.previous_sender) ado1
  ok (origin || previous, ado2)

abbrev pub permission_action : Ado → ℕ → Ado
permission_action ado action = record ado {
  permissioned_actions = save action true ado.permissioned_actions;
}

abbrev pub disable_action_permission : Ado → ℕ → Ado
disable_action_permission ado action = record ado {
  permissioned_actions = remove action ado.permissioned_actions;
}

unfoldable pub execute_set_permission : Deps → MessageInfo → Ado → ℕ → ℕ → Permission → Result Ado
unfolding set_permission is_contract_owner
execute_set_permission deps info ado actor action permission = do
  is_owner ← is_contract_owner ado info.sender
  ensure is_owner unauthorized
  actor_addr ← deps.get_raw_address actor
  ok (set_permission deps ado action actor_addr permission)

unfoldable pub execute_remove_permission : Deps → MessageInfo → Ado → ℕ → ℕ → Result Ado
unfolding remove_permission is_contract_owner
execute_remove_permission deps info ado actor action = do
  is_owner ← is_contract_owner ado info.sender
  ensure is_owner unauthorized
  actor_addr ← deps.get_raw_address actor
  ok (remove_permission deps ado action actor_addr)

unfoldable pub execute_permission_action : MessageInfo → Ado → ℕ → Result Ado
unfolding is_contract_owner
execute_permission_action info ado action = do
  is_owner ← is_contract_owner ado info.sender
  ensure is_owner unauthorized
  ok (permission_action ado action)

unfoldable pub execute_disable_action_permission : MessageInfo → Ado → ℕ → Result Ado
unfolding is_contract_owner
execute_disable_action_permission info ado action = do
  is_owner ← is_contract_owner ado info.sender
  ensure is_owner unauthorized
  ok (disable_action_permission ado action)

unfoldable pub execute_permissioning : Deps → MessageInfo → Ado → PermissioningMessage → Result Ado
execute_permissioning deps info ado (PermissioningMessage.set_permission actor action permission) =
    execute_set_permission deps info ado actor action permission
execute_permissioning deps info ado (PermissioningMessage.remove_permission action actor) =
    execute_remove_permission deps info ado actor action
execute_permissioning deps info ado (PermissioningMessage.permission_action action) =
    execute_permission_action info ado action
execute_permissioning deps info ado (PermissioningMessage.disable_action_permissioning action) =
    execute_disable_action_permission info ado action
