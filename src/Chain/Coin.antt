-- ===== src/Chain/Coin.antt =====
-- Native coins, and the helpers of packages/std/src/common/mod.rs that merge and deduct them.
use flexible_pay_crowdfund_a.Base.{ℕ, Bool, List, [], ◌∷◌, ltb, ◌==◌, if◌then◌else◌, ◌-◌}
use flexible_pay_crowdfund_a.Chain.Result.{
  Result, ok, err, ◌>>=◌, ◌>>◌, ensure, insufficient_funds, ContractError, parsing_error,
  invalid_funds,
}
use flexible_pay_crowdfund_a.Chain.Uint.{u128_max, add_or_panic, checked_sub}
pub mod Totals

pub record Coin : Type 0 where
  pub denom : ℕ
  pub amount : ℕ

pub record Cw20Coin : Type 0 where
  pub address : ℕ
  pub amount : ℕ

pub data Funds : Type 0 where
  native : Coin → Funds
  cw20 : Cw20Coin → Funds

unfoldable pub try_get_coin : Funds → Result Coin
try_get_coin (native c) = ok c
try_get_coin (cw20 c) = err parsing_error

-- One round of the loop of `merge_coins`: the first coin of that denomination grows, or the coin is
-- appended.
unfoldable pub merge_coin : List Coin → Coin → Result (List Coin)
merge_coin [] coin = ok (coin ∷ [])
merge_coin (c ∷ cs) coin =
    let rest = (do cs' ← merge_coin cs coin; ok (c ∷ cs')) in
    if c.denom == coin.denom
    then (do
      total ← add_or_panic u128_max c.amount coin.amount
      ok (record c { amount = total } ∷ cs))
    else rest

unfoldable pub merge_from : List Coin → List Coin → Result (List Coin)
unfolding merge_coin
merge_from coins [] = ok coins
merge_from coins (c ∷ cs) = do coins' ← merge_coin coins c; merge_from coins' cs

unfoldable pub merge_coins : List Coin → List Coin → Result (List Coin)
unfolding merge_from
merge_coins coins coins_to_add = do
  new_coins ← merge_from [] coins
  merge_from new_coins coins_to_add

-- The loop of `deduct_funds` over the coins of the denomination, in the list that it alters. On `ok`
-- the second part is what was left to deduct.
unfoldable pub deduct_from : List Coin → ℕ → ℕ → Result (List Coin)
deduct_from [] denom remainder = do ensure (remainder == 0) insufficient_funds; ok []
deduct_from (c ∷ cs) denom remainder =
    let skipped = (do cs' ← deduct_from cs denom remainder; ok (c ∷ cs')) in
    let emptied = (do
      remainder' ← checked_sub remainder c.amount
      cs' ← deduct_from cs denom remainder'
      ok (record c { amount = 0 } ∷ cs')) in
    let covered = (do
      left ← checked_sub c.amount remainder
      ok (record c { amount = left } ∷ cs)) in
    if c.denom == denom then (if ltb remainder c.amount then covered else emptied) else skipped

unfoldable pub deduct_funds : List Coin → Coin → Result (List Coin)
unfolding deduct_from
deduct_funds coins funds = deduct_from coins funds.denom funds.amount

-- The one coin that came with the message.
unfoldable pub single_coin : List Coin → Result Coin
single_coin [] = err invalid_funds
single_coin (c ∷ []) = ok c
single_coin (c ∷ d ∷ cs) = err invalid_funds
