-- ===== src/Ado/Permissioning/Uses.antt =====
-- How often a limited permission can be used.
use flexible_pay_crowdfund_a.Base.{
  ℕ, suc, ◌-◌, ◌≤◌, ◌<◌, ◌≡◌, refl, subst, false, Option, some, List, [], ◌∷◌, length, arith,
  eqb_self,
}
use flexible_pay_crowdfund_a.Chain.Result.{
  Result, ok, ◌>>=◌, WhenOk, WhenOk-ok, WhenOk-mono, WhenOk-bind,
}
use flexible_pay_crowdfund_a.Chain.Dict.{may_load-save}
use flexible_pay_crowdfund_a.Chain.Deps.{Deps, Env, Expiration}
use flexible_pay_crowdfund_a.Ado.Base.{Ado, Permission, limited, PermissionInfo, is_contract_owner}
use flexible_pay_crowdfund_a.Ado.Permissioning.{
  has_expired, permits, consume_use, get_permission, set_permission, use_permission,
  check_permission, is_permissioned,
}

get_permission-set_permission :
    (deps : Deps) (ado : Ado) (action actor : ℕ) (p : Permission)
    → get_permission deps (set_permission deps ado action actor p) action actor ≡ some p
unfolding get_permission set_permission
get_permission-set_permission deps ado action actor p =
    let key = deps.concat action actor in
    let i : PermissionInfo = record { permission = p; action = action; actor = actor } in
    rw (may_load-save key key i ado.permissions, eqb_self key, get_permission) refl

-- The checks in succession, each at its block.
abbrev pub use_all : Deps → ℕ → ℕ → Ado → List Env → Result Ado
use_all deps action actor ado [] = ok ado
use_all deps action actor ado (env ∷ envs) =
    is_permissioned deps ado env action actor >>= λ ado'. use_all deps action actor ado' envs

module _ (deps : Deps) (action actor : ℕ) (e : Option Expiration) where
  -- Someone other than the owner, with a limited permission.
  pub record IsLimited (uses : ℕ) (ado : Ado) : Type 0 where
    pub stored : get_permission deps ado action actor ≡ some (limited e uses)
    pub not_owner : is_contract_owner ado actor ≡ ok false

  used :
      (ado : Ado) (uses : ℕ)
      → IsLimited uses ado
      → IsLimited (uses - 1) (set_permission deps ado action actor (limited e (uses - 1)))
  unfolding is_contract_owner
  used ado uses h = record {
    stored = get_permission-set_permission deps ado action actor (limited e (uses - 1));
    not_owner = unfold set_permission in h.not_owner;
  }

  one_use :
      (ado : Ado) (env : Env) (uses : ℕ)
      → IsLimited uses ado
      → WhenOk
          (λ out. (0 < uses) × IsLimited (uses - 1) out)
          (is_permissioned deps ado env action actor)
  unfolding is_permissioned check_permission use_permission consume_use
  one_use ado env uses h =
      let next = used ado uses h in rw (h.not_owner, h.stored) (ground (arith, next))

  all_used :
      (ado : Ado) (uses : ℕ) (envs : List Env)
      → IsLimited uses ado
      → WhenOk
          (λ out. (length envs ≤ uses) × IsLimited (uses - length envs) out)
          (use_all deps action actor ado envs)
  all_used ado uses [] h = (omega arith, subst (λ n. IsLimited n ado) (omega arith) h)
  all_used ado uses (env ∷ envs) h =
      let After : Ado → Type 0 =
        λ out. (suc (length envs) ≤ uses) × IsLimited (uses - suc (length envs)) out in
      WhenOk-bind After (is_permissioned deps ado env action actor) _ λ ado' e.
        let (positive, left) = WhenOk-ok _ _ (one_use ado env uses h) e in
        WhenOk-mono _ After
          (λ out k. (omega (arith, k.0), subst (λ n. IsLimited n out) (omega arith) k.1))
          (use_all deps action actor ado' envs) (all_used ado' (uses - 1) envs left)

  -- A limited permission lets an actor who is not the owner through at most as often as it has uses,
  -- whether the action is permissioned or not and whatever the blocks; every time takes one use.
  pub use_all-IsLimited :
      (ado : Ado) (uses : ℕ) (envs : List Env) {out : Ado}
      → IsLimited uses ado
      → use_all deps action actor ado envs ≡ ok out
      → (length envs ≤ uses) × IsLimited (uses - length envs) out
  use_all-IsLimited ado uses envs h run =
      WhenOk-ok _ (use_all deps action actor ado envs) (all_used ado uses envs h) run

  -- The permission has not expired at any of the blocks.
  abbrev pub AllUnexpired : List Env → Type 0
  AllUnexpired [] = Unit
  AllUnexpired (env ∷ envs) = (has_expired deps env e ≡ false) × AllUnexpired envs

  one_success :
      (ado : Ado) (env : Env) (uses : ℕ)
      → IsLimited uses ado
      → has_expired deps env e ≡ false
      → 0 < uses
      → is_permissioned deps ado env action actor
        ≡ ok (set_permission deps ado action actor (limited e (uses - 1)))
  unfolding is_permissioned check_permission use_permission consume_use permits
  one_success ado env uses h live some_left = rw (h.not_owner, h.stored, live) (ground arith)

  -- And as often as it has uses it does, until it expires.
  pub use_all_total :
      (ado : Ado) (uses : ℕ) (envs : List Env)
      → IsLimited uses ado
      → AllUnexpired envs
      → length envs ≤ uses
      → (out : Ado) × (use_all deps action actor ado envs ≡ ok out)
  use_all_total ado uses [] h live enough = (ado, refl)
  use_all_total ado uses (env ∷ envs) h live enough =
      rw (one_success ado env uses h live.0 (omega arith)) (
        use_all_total (set_permission deps ado action actor (limited e (uses - 1))) (uses - 1) envs
          (used ado uses h) live.1 (omega arith))
