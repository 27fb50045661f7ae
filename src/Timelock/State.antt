-- ===== src/Timelock/State.antt =====
-- Escrows: packages/andromeda-finance/src/timelock.rs, and how they are stored:
-- contracts/finance/andromeda-timelock/src/state.rs.
use flexible_pay_crowdfund_a.Base.{
  ℕ, min, Bool, true, false, not, ◌&&◌, ◌||◌, Option, none, some, List, [], ◌∷◌, is_empty, take,
  unwrap_or, ltb, leb, ◌==◌, if◌then◌else◌,
}
use flexible_pay_crowdfund_a.Chain.Result.{
  Result, ok, err, panicked, ◌>>=◌, ◌>>◌, ensure, invalid_funds, invalid_address,
  duplicate_coin_denoms, expiration_in_past,
}
use flexible_pay_crowdfund_a.Chain.Coin.{Coin, merge_coins}
use flexible_pay_crowdfund_a.Chain.Dict.{Dict}
use flexible_pay_crowdfund_a.Chain.Deps.{Deps, BlockInfo}
use flexible_pay_crowdfund_a.Chain.Time.{is_in_past}
use flexible_pay_crowdfund_a.Ado.Base.{Ado}
use flexible_pay_crowdfund_a.Ado.Recipient.{Recipient}

pub data EscrowCondition : Type 0 where
  -- milliseconds
  expiration : ℕ → EscrowCondition
  minimum_funds : List Coin → EscrowCondition

pub record Escrow : Type 0 where
  pub coins : List Coin
  pub condition : Option EscrowCondition
  pub recipient : Recipient
  pub recipient_addr : ℕ

pub record Store : Type 0 where
  pub ado : Ado
  pub escrows : Dict Escrow

-- Some deposited coin covers the required one.
abbrev pub covers : List Coin → Coin → Bool
covers [] required = false
covers (c ∷ cs) required =
    (c.denom == required.denom && leb required.amount c.amount) || covers cs required

abbrev pub min_funds_deposited : List Coin → List Coin → Bool
min_funds_deposited coins [] = true
min_funds_deposited coins (r ∷ rs) = covers coins r && min_funds_deposited coins rs

unfoldable pub is_locked : Escrow → BlockInfo → Bool
unfolding is_in_past
is_locked e block = elim e.condition [
  | none ↦ false
  | some (expiration t) ↦ not (is_in_past t block)
  | some (minimum_funds funds) ↦ not (min_funds_deposited e.coins funds)
]

-- `sort_by` on the denomination, which is stable.
abbrev pub insert_by_denom : Coin → List Coin → List Coin
insert_by_denom c [] = c ∷ []
insert_by_denom c (d ∷ ds) = if leb c.denom d.denom then c ∷ d ∷ ds else d ∷ insert_by_denom c ds

abbrev pub sort_by_denom : List Coin → List Coin
sort_by_denom [] = []
sort_by_denom (c ∷ cs) = insert_by_denom c (sort_by_denom cs)

-- No two neighbours have the same denomination. The loop's bound `len() - 1` underflows, and panics,
-- where there are no coins.
abbrev pub no_duplicates : List Coin → Result (Unit {0})
no_duplicates [] = panicked
no_duplicates (c ∷ []) = ok tt
no_duplicates (c ∷ d ∷ cs) = do
  ensure (not (c.denom == d.denom)) duplicate_coin_denoms
  no_duplicates (d ∷ cs)

-- `r.is_ok()`, where a panic stays one
abbrev is_ok : Result ℕ → Result Bool
is_ok (ok a) = ok true
is_ok (err e) = ok false
is_ok panicked = panicked

abbrev is_none : Option EscrowCondition → Bool
is_none none = true
is_none (some c) = false

abbrev validate_condition : Escrow → BlockInfo → Option EscrowCondition → Result (Unit {0})
validate_condition e block (some (minimum_funds funds)) = do
  ensure (not (is_empty funds)) invalid_funds
  no_duplicates (sort_by_denom funds)
validate_condition e block (some (expiration t)) =
    ensure (is_locked e block || is_none e.condition) expiration_in_past
validate_condition e block none =
    ensure (is_locked e block || is_none e.condition) expiration_in_past

unfoldable pub validate : Deps → Escrow → BlockInfo → Result (Unit {0})
unfolding is_locked
validate deps e block = do
  ensure (not (is_empty e.coins)) invalid_funds
  valid ← is_ok (deps.addr_validate e.recipient_addr)
  ensure valid invalid_address
  validate_condition e block e.condition

unfoldable pub add_funds : Escrow → List Coin → Result Escrow
add_funds e coins_to_add = do
  coins ← merge_coins e.coins coins_to_add
  ok (record e { coins = coins })

abbrev pub default_limit : ℕ
default_limit = 10

abbrev pub max_limit : ℕ
max_limit = 30

-- The keys of a recipient's escrows, after a key, in their order.
abbrev pub keys_for : ℕ → Option ℕ → Dict Escrow → List ℕ
keys_for recipient start_after [] = []
keys_for recipient start_after ((k, e) ∷ d) =
    let rest = keys_for recipient start_after d in
    if e.recipient_addr == recipient && elim start_after [ none ↦ true | some s ↦ ltb s k ]
    then k ∷ rest
    else rest

unfoldable pub get_keys_for_recipient : Store → ℕ → Option ℕ → Option ℕ → List ℕ
get_keys_for_recipient store recipient start_after limit =
    take (min (unwrap_or limit default_limit) max_limit)
      (keys_for recipient start_after store.escrows)
