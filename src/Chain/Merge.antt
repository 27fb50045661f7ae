-- ===== src/Chain/Merge.antt =====
-- `merge_sub_msgs` (packages/std/src/common/mod.rs): bank messages to one recipient become one.
use flexible_pay_crowdfund_a.Base.{ℕ, List, [], ◌∷◌, ◌++◌, none, some, map}
use flexible_pay_crowdfund_a.Chain.Result.{Result, ok, ◌>>=◌}
use flexible_pay_crowdfund_a.Chain.Coin.{Coin, merge_coins}
use flexible_pay_crowdfund_a.Chain.Dict.{Dict, may_load, save}
use flexible_pay_crowdfund_a.Chain.Message.{
  SubMsg, CosmosMsg, bank_send, wasm_execute, staking, distribution, gov_vote, other, new_sub_msg,
}

-- The map from recipients to coins, and the messages that are left as they are.
abbrev pub Merged : Type 0
Merged = Dict (List Coin) × List SubMsg

unfoldable pub merge_bank : ℕ → List Coin → Merged → Result Merged
merge_bank to amount (coins, rest) = elim (may_load to coins) [
  | some current_coins ↦
      merge_coins current_coins amount >>= λ merged. ok (save to merged coins, rest)
  | none ↦ ok (save to amount coins, rest)
]

-- One round of the loop.
unfoldable pub merge_msg : CosmosMsg → SubMsg → Merged → Result Merged
unfolding merge_bank
merge_msg (bank_send to amount) m acc = merge_bank to amount acc
merge_msg (wasm_execute to p funds) m (coins, rest) = ok (coins, rest ++ m ∷ [])
merge_msg (staking k) m (coins, rest) = ok (coins, rest ++ m ∷ [])
merge_msg (distribution k) m (coins, rest) = ok (coins, rest ++ m ∷ [])
merge_msg (gov_vote p v) m (coins, rest) = ok (coins, rest ++ m ∷ [])
merge_msg (other k) m (coins, rest) = ok (coins, rest ++ m ∷ [])

unfoldable pub merge_loop : List SubMsg → Merged → Result Merged
unfolding merge_msg
merge_loop [] acc = ok acc
merge_loop (m ∷ ms) acc = do acc' ← merge_msg m.msg m acc; merge_loop ms acc'

abbrev pub to_bank_msgs : Dict (List Coin) → List SubMsg
to_bank_msgs = map λ e. new_sub_msg (bank_send e.0 e.1)

unfoldable pub merge_sub_msgs : List SubMsg → Result (List SubMsg)
unfolding merge_loop
merge_sub_msgs msgs = do (coins, rest) ← merge_loop msgs ([], []); ok (rest ++ to_bank_msgs coins)
