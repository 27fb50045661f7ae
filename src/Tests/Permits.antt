-- ===== src/Tests/Permits.antt =====
-- A permission with two uses, for the actor 9 and the action 5.
use flexible_pay_crowdfund_a.Base.{◌-◌, ◌≡◌, ◌≤◌, refl, arith, none, List, [], ◌∷◌, length}
use flexible_pay_crowdfund_a.Chain.Result.{ok}
use flexible_pay_crowdfund_a.Chain.Dict.{save}
use flexible_pay_crowdfund_a.Chain.Deps.{Env}
use flexible_pay_crowdfund_a.Ado.Base.{Ado, limited, is_contract_owner}
use flexible_pay_crowdfund_a.Ado.Permissioning.{
  get_permission, set_permission, is_permissioned, check_permission, use_permission, consume_use,
  permits,
}
use flexible_pay_crowdfund_a.Ado.Permissioning.Uses.{
  IsLimited, use_all, use_all-IsLimited, use_all_total, AllUnexpired,
}
use flexible_pay_crowdfund_a.Tests.{value_or, deps, at_second, ado}

abbrev permitted : Ado
permitted = set_permission deps ado 5 9 (limited none 2)

two_uses : IsLimited deps 5 9 none 2 permitted
unfolding set_permission get_permission save is_contract_owner
two_uses = record { stored = refl; not_owner = refl }

abbrev checks : List Env
checks = at_second 10 ∷ at_second 20 ∷ []

abbrev used_up : Ado
used_up = value_or permitted (use_all deps 5 9 permitted checks)

both_pass : use_all deps 5 9 permitted checks ≡ ok used_up
unfolding set_permission get_permission save is_contract_owner is_permissioned check_permission
    use_permission consume_use permits
both_pass = refl

use_all-IsLimited_example :
    (length checks ≤ 2) × IsLimited deps 5 9 none (2 - length checks) used_up
use_all-IsLimited_example = use_all-IsLimited deps 5 9 none permitted 2 checks two_uses both_pass

never_expire : AllUnexpired deps 5 9 none checks
never_expire = (refl, (refl, tt))

use_all_total_example : (out : Ado) × (use_all deps 5 9 permitted checks ≡ ok out)
use_all_total_example =
    use_all_total deps 5 9 none permitted 2 checks two_uses never_expire (omega arith)
