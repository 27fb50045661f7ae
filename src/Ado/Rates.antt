-- ===== src/Ado/Rates.antt =====
-- `get_tax_amount` (packages/std/src/common/rates.rs).
use flexible_pay_crowdfund_a.Base.{ℕ, ◌+◌, ◌≡◌, refl, List, [], ◌∷◌, arith}
use flexible_pay_crowdfund_a.Chain.Result.{Result, ok, panicked, ◌>>=◌, WhenOk, WhenOk-ok}
use flexible_pay_crowdfund_a.Chain.Uint.{u128_max, add_or_panic, sub_or_panic}
use flexible_pay_crowdfund_a.Chain.Coin.Totals.{amount_of}
use flexible_pay_crowdfund_a.Chain.Outflow.{outflow, outflows}
use flexible_pay_crowdfund_a.Chain.Message.{
  SubMsg, CosmosMsg, bank_send, wasm_execute, staking, distribution, gov_vote, other,
}

-- What is counted of a message: the first coin of a bank message. Reading the first coin of an empty list
-- panics.
unfoldable pub sent_amount : CosmosMsg → Result ℕ
sent_amount (bank_send to []) = panicked
sent_amount (bank_send to (c ∷ cs)) = ok c.amount
sent_amount (wasm_execute to p funds) = ok 0
sent_amount (staking m) = ok 0
sent_amount (distribution m) = ok 0
sent_amount (gov_vote p v) = ok 0
sent_amount (other m) = ok 0

-- The additions of `reduce`, after the first message.
unfoldable pub sum_sent : ℕ → List SubMsg → Result ℕ
unfolding sent_amount
sum_sent acc [] = ok acc
sum_sent acc (m ∷ ms) = do
  a ← sent_amount m.msg
  total ← add_or_panic u128_max acc a
  sum_sent total ms

-- `map`, `reduce` and `unwrap_or_else` over the messages
unfoldable pub reduce_sent : List SubMsg → Result ℕ
unfolding sum_sent
reduce_sent [] = ok 0
reduce_sent (m ∷ ms) = do a ← sent_amount m.msg; sum_sent a ms

unfoldable pub get_tax_amount : List SubMsg → ℕ → ℕ → Result ℕ
unfolding reduce_sent
get_tax_amount msgs base_amount remaining_amount_after_royalties = do
  deducted_amount ← sub_or_panic base_amount remaining_amount_after_royalties
  total ← reduce_sent msgs
  sub_or_panic total deducted_amount

-- What the source counts of a message, and the sum that it reduces to: the first coin of a bank
-- message, in whatever denomination, and nothing of any other message.
abbrev pub sent : CosmosMsg → ℕ
sent (bank_send to []) = 0
sent (bank_send to (c ∷ cs)) = c.amount
sent (wasm_execute to p funds) = 0
sent (staking m) = 0
sent (distribution m) = 0
sent (gov_vote p v) = 0
sent (other m) = 0

abbrev pub total_sent : List SubMsg → ℕ
total_sent [] = 0
total_sent (m ∷ ms) = sent m.msg + total_sent ms

-- Each message sends only what is counted: its first coin, if it is a bank message, has the
-- denomination, and no other funds that it carries do.
abbrev pub Counted : ℕ → CosmosMsg → Type 0
Counted d (bank_send to []) = Unit
Counted d (bank_send to (c ∷ cs)) = (c.denom ≡ d) × (amount_of d cs ≡ 0)
Counted d (wasm_execute to p funds) = amount_of d funds ≡ 0
Counted d (staking m) = Unit
Counted d (distribution m) = Unit
Counted d (gov_vote p v) = Unit
Counted d (other m) = Unit

abbrev pub AllCounted : ℕ → List SubMsg → Type 0
AllCounted d [] = Unit
AllCounted d (m ∷ ms) = Counted d m.msg × AllCounted d ms

sent-outflow : (d : ℕ) (m : CosmosMsg) → Counted d m → sent m ≡ outflow d m
sent-outflow d (bank_send to []) h = refl
sent-outflow d (bank_send to (c ∷ cs)) h = ground (arith, h.0, h.1)
sent-outflow d (wasm_execute to p funds) h = omega (arith, h)
sent-outflow d (staking m) h = refl
sent-outflow d (distribution m) h = refl
sent-outflow d (gov_vote p v) h = refl
sent-outflow d (other m) h = refl

-- Then the sum is what leaves the contract in the denomination.
pub total_sent-outflows :
    (d : ℕ) (ms : List SubMsg) → AllCounted d ms → total_sent ms ≡ outflows d ms
total_sent-outflows d [] h = refl
total_sent-outflows d (m ∷ ms) h = λ i. sent-outflow d m.msg h.0 i + total_sent-outflows d ms h.1 i

sent_amount-sent : (m : CosmosMsg) → WhenOk (λ a. a ≡ sent m) (sent_amount m)
unfolding sent_amount
sent_amount-sent (bank_send to []) = tt
sent_amount-sent (bank_send to (c ∷ cs)) = ground arith
sent_amount-sent (wasm_execute to p funds) = omega arith
sent_amount-sent (staking m) = omega arith
sent_amount-sent (distribution m) = omega arith
sent_amount-sent (gov_vote p v) = omega arith
sent_amount-sent (other m) = omega arith

sum_sent-total_sent :
    (acc : ℕ) (ms : List SubMsg) → WhenOk (λ t. t ≡ acc + total_sent ms) (sum_sent acc ms)
unfolding sum_sent
sum_sent-total_sent acc [] = omega arith
sum_sent-total_sent acc (m ∷ ms) =
    ground (arith, sent_amount-sent m.msg, sum_sent-total_sent (acc + sent m.msg) ms)

reduce_sent-total_sent : (ms : List SubMsg) → WhenOk (λ t. t ≡ total_sent ms) (reduce_sent ms)
unfolding reduce_sent
reduce_sent-total_sent [] = omega arith
reduce_sent-total_sent (m ∷ ms) =
    ground (arith, sent_amount-sent m.msg, sum_sent-total_sent (sent m.msg) ms)

balances :
    (ms : List SubMsg) (base left : ℕ)
    → WhenOk (λ tax. base + tax ≡ left + total_sent ms) (get_tax_amount ms base left)
unfolding get_tax_amount
balances ms base left = ground (arith, reduce_sent-total_sent ms)

-- The base amount and the tax together are what is left and what is counted of the messages.
pub get_tax_amount-balances :
    (ms : List SubMsg) (base left : ℕ) {tax : ℕ}
    → get_tax_amount ms base left ≡ ok tax
    → base + tax ≡ left + total_sent ms
get_tax_amount-balances ms base left h =
    WhenOk-ok _ (get_tax_amount ms base left) (balances ms base left) h
