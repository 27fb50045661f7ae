-- ===== src/Tests.antt =====
-- A small chain to run the contracts on: the answers of other contracts and of the libraries as
-- concrete functions, a rates module that takes a tax of 5 and a royalty of 10, and storage.

mod Coins
mod Owners
mod Sale
mod Rounds
mod Batches
mod Queries
mod Auctions
mod Permits
mod Escrows
mod Splits
mod Accounts
use flexible_pay_crowdfund_a.Base.{
  ℕ, ◌+◌, ◌-◌, ◌*◌, ◌&&◌, ◌==◌, Bool, true, false, none, some, Option, List, [], ◌∷◌, leb, ltb,
  is_empty, if◌then◌else◌,
}
use flexible_pay_crowdfund_a.Chain.Result.{Result, ok, err, external, panicked}
use flexible_pay_crowdfund_a.Chain.Coin.{Coin, Funds, native, cw20}
use flexible_pay_crowdfund_a.Chain.Message.{SubMsg, new_sub_msg, bank_send}
use flexible_pay_crowdfund_a.Chain.Deps.{
  BlockInfo, Expiration, at_height, at_time, never, Env, Deps, Answer, answered,
  OnFundsTransferResponse,
}
use flexible_pay_crowdfund_a.Ado.Base.{Ado}
use flexible_pay_crowdfund_a.Ado.Recipient.{Recipient}

-- The value of a call that succeeds.
abbrev pub value_or : {A : Type 0} → A → Result A → A
value_or a (ok b) = b
value_or a (err e) = a
value_or a panicked = a

abbrev pub coin : ℕ → ℕ → Coin
coin denom amount = record { denom = denom; amount = amount }

abbrev has_coins : List Coin → Coin → Bool
has_coins [] required = false
has_coins (c ∷ cs) required =
    let rest = has_coins cs required in
    if c.denom == required.denom && leb required.amount c.amount then true else rest

abbrev nonpayable : List Coin → Result (Unit {0})
nonpayable [] = ok tt
nonpayable (c ∷ cs) = err (external 1)

abbrev one_coin : List Coin → Result Coin
one_coin [] = err (external 2)
one_coin (c ∷ []) = if c.amount == 0 then err (external 3) else ok c
one_coin (c ∷ d ∷ cs) = err (external 4)

abbrev is_expired : Expiration → BlockInfo → Bool
is_expired (at_height h) block = leb h block.height
is_expired (at_time t) block = leb t block.time
is_expired never block = false

abbrev later : Expiration → Expiration → Bool
later (at_height h) (at_height j) = ltb j h
later (at_time t) (at_time u) = ltb u t
later a b = false

abbrev rates : Funds → OnFundsTransferResponse
rates (native c) = record {
  msgs =
      new_sub_msg (bank_send 70 (coin c.denom 5 ∷ []))
      ∷ new_sub_msg (bank_send 71 (coin c.denom 10 ∷ []))
      ∷ [];
  leftover_funds = native (coin c.denom (c.amount - 10));
}
rates (cw20 c) = record { msgs = []; leftover_funds = cw20 c }

abbrev pub deps : Deps
deps = record {
  nonpayable = nonpayable;
  one_coin = one_coin;
  has_coins = has_coins;
  is_expired = is_expired;
  later = later;
  concat = λ a b. a * 1000 + b;
  addr_validate = λ a. ok a;
  validate = λ a. ok tt;
  get_raw_address = λ a. ok a;
  get_vfs_address = ok 90;
  get_raw_address_from_vfs = λ a v. ok a;
  validate_andr_addresses = λ addresses. ok tt;
  is_local_path = λ a. false;
  local_path_to_vfs_path = λ a v. ok a;
  funds_transfer = λ m s f. answered (some (rates f));
  is_cw721 = λ a. true;
  tokens = λ c o n. ok [];
  owner_of = λ c t. ok 100;
  query_supply = λ d. ok 5000;
  balance = λ a d. ok 1000;
  delegation = λ d v. ok none;
  all_delegations = λ d. ok [];
}

abbrev pub at_second : ℕ → Env
at_second s = record {
  block = record { height = 10; time = s * 1000000000 };
  contract_address = 100;
}

abbrev pub ado : Ado
ado = record {
  owner = some 3;
  potential_owner = none;
  potential_owner_expiration = none;
  kernel_address = some 8;
  permissions = [];
  permissioned_actions = [];
  module_info = (1, record { name = none; address = 60; is_mutable = true }) ∷ [];
  module_idx = some 2;
}

abbrev pub to_charity : Recipient
to_charity = record { address = 40; msg = none; ibc_recovery_address = none }
