-- ===== src/Chain/Coin/Totals.antt =====
-- What merging and deducting do to the amount held in each denomination.
use flexible_pay_crowdfund_a.Base.{
  ℕ, ◌+◌, ◌-◌, ◌≡◌, List, [], ◌∷◌, arith, ◌==◌, if◌then◌else◌, inl, inr,
}
use flexible_pay_crowdfund_a.Chain.Result.{Result, ok, WhenOk, WhenOk-ok, Result-cases}
use flexible_pay_crowdfund_a.Chain.Coin.{
  Coin, merge_coin, merge_from, merge_coins, deduct_from, deduct_funds,
}

-- The amount of a denomination in a list of coins.
abbrev pub amount_of : ℕ → List Coin → ℕ
amount_of d [] = 0
amount_of d (c ∷ cs) = (if c.denom == d then c.amount else 0) + amount_of d cs

-- What a call returns holds `amount` more of each denomination than `before`, or `amount` less.
abbrev Deducted : ℕ → List Coin → ℕ → ℕ → Result (List Coin) → Type 0
Deducted d before denom amount =
    WhenOk λ after. amount_of d after + (if denom == d then amount else 0) ≡ amount_of d before

deduct_from-Deducted :
    (d : ℕ) (coins : List Coin) (denom amount : ℕ)
    → Deducted d coins denom amount (deduct_from coins denom amount)
unfolding deduct_from
deduct_from-Deducted d [] denom amount = ground arith
deduct_from-Deducted d (c ∷ cs) denom amount = ground (
  arith,
  deduct_from-Deducted d cs denom amount,
  deduct_from-Deducted d cs denom (amount - c.amount),
)

-- Deducting succeeds only with the amount at hand, and takes exactly that amount of that
-- denomination and nothing of any other.
pub deduct_funds-amount_of :
    (d : ℕ) (coins : List Coin) (funds : Coin) {left : List Coin}
    → deduct_funds coins funds ≡ ok left
    → amount_of d left + (if funds.denom == d then funds.amount else 0) ≡ amount_of d coins
unfolding deduct_funds
deduct_funds-amount_of d coins funds h =
    WhenOk-ok _ (deduct_funds coins funds) (deduct_from-Deducted d coins funds.denom funds.amount) h

-- Merging one coin, then many, adds their amounts.
merge_coin-amount_of :
    (d : ℕ) (coins : List Coin) (coin : Coin)
    → WhenOk
        (λ after. amount_of d after ≡ amount_of d coins + amount_of d (coin ∷ []))
        (merge_coin coins coin)
unfolding merge_coin
merge_coin-amount_of d [] coin = ground arith
merge_coin-amount_of d (c ∷ cs) coin = ground (arith, merge_coin-amount_of d cs coin)

merge_from-amount_of :
    (d : ℕ) (coins added : List Coin)
    → WhenOk
        (λ after. amount_of d after ≡ amount_of d coins + amount_of d added)
        (merge_from coins added)
unfolding merge_from
merge_from-amount_of d coins [] = omega arith
merge_from-amount_of d coins (c ∷ cs) = elim (Result-cases (merge_coin coins c)) [
  | inl (after, e) ↦
      let step = WhenOk-ok _ (merge_coin coins c) (merge_coin-amount_of d coins c) e in
      rw e (ground (arith, step, merge_from-amount_of d after cs))
  | inr (inl (_, e)) ↦ rw e tt
  | inr (inr e) ↦ rw e tt
]

merged-amount_of :
    (d : ℕ) (coins added : List Coin)
    → WhenOk
        (λ after. amount_of d after ≡ amount_of d coins + amount_of d added)
        (merge_coins coins added)
unfolding merge_coins
merged-amount_of d coins added = elim (Result-cases (merge_from [] coins)) [
  | inl (first, e) ↦
      let step = WhenOk-ok _ (merge_from [] coins) (merge_from-amount_of d [] coins) e in
      rw e (ground (arith, step, merge_from-amount_of d first added))
  | inr (inl (_, e)) ↦ rw e tt
  | inr (inr e) ↦ rw e tt
]

-- Merging neither makes nor loses an amount of any denomination.
pub merge_coins-amount_of :
    (d : ℕ) (coins added : List Coin) {after : List Coin}
    → merge_coins coins added ≡ ok after
    → amount_of d after ≡ amount_of d coins + amount_of d added
merge_coins-amount_of d coins added h =
    WhenOk-ok _ (merge_coins coins added) (merged-amount_of d coins added) h
