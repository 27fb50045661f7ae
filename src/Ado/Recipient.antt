-- ===== src/Ado/Recipient.antt =====
-- `Recipient` (packages/std/src/amp/recipient.rs).
use flexible_pay_crowdfund_a.Base.{ℕ, Option, none, some, List, unwrap_or, if◌then◌else◌}
use flexible_pay_crowdfund_a.Chain.Result.{Result, ok, ◌>>=◌, ◌>>◌}
use flexible_pay_crowdfund_a.Chain.Coin.{Coin}
use flexible_pay_crowdfund_a.Chain.Message.{
  SubMsg, new_sub_msg, wasm_execute, bank_send, binary, AmpMsg, new_amp_msg, with_ibc_recovery,
}
use flexible_pay_crowdfund_a.Chain.Deps.{Deps}

pub record Recipient : Type 0 where
  pub address : ℕ
  pub msg : Option ℕ
  pub ibc_recovery_address : Option ℕ

unfoldable pub validate : Deps → Recipient → Result (Unit {0})
validate deps r = do
  deps.validate r.address
  deps.get_raw_address r.address >>= λ _. ok tt
  elim r.ibc_recovery_address [
    | none ↦ ok tt
    | some a ↦ deps.validate a >> (deps.get_raw_address a >>= λ _. ok tt)
  ]

unfoldable pub generate_direct_msg : Deps → Recipient → List Coin → Result SubMsg
generate_direct_msg deps r funds = do
  resolved_addr ← deps.get_raw_address r.address
  ok (elim r.msg [
    | some message ↦ new_sub_msg (wasm_execute resolved_addr (binary message) funds)
    | none ↦ new_sub_msg (bank_send resolved_addr funds)
  ])

-- The number 0 stands for the empty binary.
abbrev empty_binary : ℕ
empty_binary = 0

resolve_local_path : Deps → ℕ → Result ℕ
resolve_local_path deps address = do
  vfs ← deps.get_vfs_address
  deps.local_path_to_vfs_path address vfs

unfoldable pub generate_amp_msg : Deps → Recipient → List Coin → Result AmpMsg
unfolding resolve_local_path
generate_amp_msg deps r funds = do
  address ← if deps.is_local_path r.address then resolve_local_path deps r.address else ok r.address
  ok (
      with_ibc_recovery (new_amp_msg address (unwrap_or r.msg empty_binary) funds)
        r.ibc_recovery_address)

-- `Recipient::from_string`
abbrev pub from_string : ℕ → Recipient
from_string addr = record { address = addr; msg = none; ibc_recovery_address = none }
