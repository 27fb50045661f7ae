-- ===== src/Ado/Modules.antt =====
-- `on_funds_transfer` and what it calls: packages/std/src/ado_contract/modules/mod.rs. Every
-- registered module is asked in turn what it takes of the funds that the ones before it left.
use flexible_pay_crowdfund_a.Base.{
  ℕ, true, false, Option, none, some, List, [], ◌∷◌, ◌++◌, map, take, unwrap_or,
}
use flexible_pay_crowdfund_a.Chain.Result.{Result, ok, err, ◌>>=◌, external}
use flexible_pay_crowdfund_a.Chain.Result
use flexible_pay_crowdfund_a.Chain.Coin.{Funds}
use flexible_pay_crowdfund_a.Chain.Message.{SubMsg}
use flexible_pay_crowdfund_a.Chain.Deps.{
  Deps, Answer, answered, not_found, failed, OnFundsTransferResponse,
}
use flexible_pay_crowdfund_a.Ado.Base.{Ado, Module}

-- A module that does not know the operation is passed over; any other error is returned.
unfoldable pub process_module_response : {A : Type 0} → Answer A → Result (Option A)
process_module_response (answered r) = ok r
process_module_response (not_found true) = ok none
process_module_response (not_found false) = err Result.not_found
process_module_response (failed e) = err (external e)

unfoldable pub load_modules : Ado → List Module
load_modules ado = take (unwrap_or ado.module_idx 1) (map (λ e. e.1) ado.module_info)

-- One round of the loop, after the answer.
abbrev pub take_response :
    Option OnFundsTransferResponse → List SubMsg × Funds → List SubMsg × Funds
take_response none acc = acc
take_response (some r) (msgs, remainder) = (msgs ++ r.msgs, r.leftover_funds)

unfoldable pub ask_modules :
    Deps → ℕ → ℕ → List Module → List SubMsg × Funds → Result (List SubMsg × Funds)
unfolding process_module_response
ask_modules deps vfs sender [] acc = ok acc
ask_modules deps vfs sender (m ∷ ms) acc = do
  module_address ← deps.get_raw_address_from_vfs m.address vfs
  mod_resp ← process_module_response (deps.funds_transfer module_address sender acc.1)
  ask_modules deps vfs sender ms (take_response mod_resp acc)

-- The messages that the modules want sent, and what is left of the funds.
unfoldable pub on_funds_transfer : Deps → Ado → ℕ → Funds → Result (List SubMsg × Funds)
unfolding ask_modules load_modules
on_funds_transfer deps ado sender amount = do
  vfs ← deps.get_vfs_address
  ask_modules deps vfs sender (load_modules ado) ([], amount)
