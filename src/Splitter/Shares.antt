-- ===== src/Splitter/Shares.antt =====
-- The shares of a splitter: what a percentage takes of an amount, rounded down, and what is left.
use native.Mathlib.Nat.{mul-add, mul-le-mul_left}
use flexible_pay_crowdfund_a.Base.{
  ℕ, le→leb, ◌+◌, ◌*◌, ◌-◌, ◌≤◌, ◌≡◌, refl, true, List, [], ◌∷◌, ◌++◌, arith, leb,
}
use flexible_pay_crowdfund_a.Chain.Result.{ok, WhenOk, WhenOk-ok, WhenOk-bind}
use flexible_pay_crowdfund_a.Chain.Uint.{u128_max, checked_sub, checked_sub-eq-ok}
use flexible_pay_crowdfund_a.Chain.Coin.{Coin}
use flexible_pay_crowdfund_a.Chain.Coin.Totals.{amount_of}
use flexible_pay_crowdfund_a.Ado.Withdrawal.{decimal_one, mul_decimal}
use flexible_pay_crowdfund_a.Splitter.State.{AddressPercent}
use flexible_pay_crowdfund_a.Splitter.Handlers.{share, take_shares}

distributes : (a p q : ℕ) → a * (p + q) ≡ a * p + a * q
distributes a p q = mul-add a p q

at_most : (a p : ℕ) → p ≤ decimal_one → a * p ≤ a * decimal_one
at_most a p h = mul-le-mul_left a h

-- Rounded down, two shares of at most the whole are no more than the whole.
two_shares :
    (a p q : ℕ)
    → p + q ≤ decimal_one
    → (mul_decimal a p + mul_decimal a q ≤ mul_decimal a (p + q)) × (mul_decimal a (p + q) ≤ a)
two_shares a p q h =
    let both = distributes a p q in
    let most = at_most a (p + q) h in (omega (arith, both, most), omega (arith, most))

-- One coin after shares of `used` in all: what is left covers the rest.
abbrev pub Covers : ℕ → List Coin → List Coin → Type 0
Covers used [] [] = Unit
Covers used [] (r ∷ rs) = ⊥
Covers used (c ∷ cs) [] = ⊥
Covers used (c ∷ cs) (r ∷ rs) =
    (r.denom ≡ c.denom) × (c.amount ≤ r.amount + mul_decimal c.amount used) × Covers used cs rs

abbrev pub AllSmall : List Coin → Type 0
AllSmall [] = Unit
AllSmall (c ∷ cs) = (c.amount ≤ u128_max) × AllSmall cs

pub Covers-self : (cs : List Coin) → Covers 0 cs cs
Covers-self [] = tt
Covers-self (c ∷ cs) = (refl, omega arith, Covers-self cs)

-- A percentage of every coin.
abbrev pub shares : ℕ → List Coin → List Coin
shares percent [] = []
shares percent (c ∷ cs) = record c { amount = mul_decimal c.amount percent } ∷ shares percent cs

-- The shares of all recipients, in their order.
abbrev pub all_shares : List Coin → List AddressPercent → List Coin
all_shares funds [] = []
all_shares funds (r ∷ rs) = shares r.percent funds ++ all_shares funds rs

-- The share can be taken: it is within what is left, and leaves enough for the rest.
pub take_shares_total :
    (used percent : ℕ) (cs rs : List Coin)
    → used + percent ≤ decimal_one
    → AllSmall cs
    → Covers used cs rs
    → (out : List Coin × List Coin) × (take_shares percent cs rs ≡ ok out)
      × Covers (used + percent) cs out.1
unfolding take_shares share
take_shares_total used percent [] [] h small v = (([], []), refl, tt)
take_shares_total used percent [] (r ∷ rs) h small v = absurd v
take_shares_total used percent (c ∷ cs) [] h small v = absurd v
take_shares_total used percent (c ∷ cs) (r ∷ rs) h small (denom, enough, v) =
    let (out, runs, left) = take_shares_total used percent cs rs h small.1 v in
    let s = two_shares c.amount used percent h in
    let fits : leb (mul_decimal c.amount percent) u128_max ≡ true =
      le→leb (mul_decimal c.amount percent) u128_max (omega (arith, s, small)) in
    let within : leb (mul_decimal c.amount percent) r.amount ≡ true =
      le→leb (mul_decimal c.amount percent) r.amount (omega (arith, s, enough)) in
    let mine = mul_decimal c.amount percent in
    (
      (record c { amount = mine } ∷ out.0, record r { amount = r.amount - mine } ∷ out.1),
      rw (fits, within, runs) refl,
      (denom, omega (arith, s, enough), left),
    )

share-eq :
    (amount percent : ℕ) {r : ℕ} → share amount percent ≡ ok r → r ≡ mul_decimal amount percent
unfolding share
share-eq amount percent h = ground arith

abbrev pub SameDenoms : List Coin → List Coin → Type 0
SameDenoms [] [] = Unit
SameDenoms [] (r ∷ rs) = ⊥
SameDenoms (c ∷ cs) [] = ⊥
SameDenoms (c ∷ cs) (r ∷ rs) = (r.denom ≡ c.denom) × SameDenoms cs rs

pub SameDenoms-self : (cs : List Coin) → SameDenoms cs cs
SameDenoms-self [] = tt
SameDenoms-self (c ∷ cs) = (refl, SameDenoms-self cs)

-- What a round takes is the recipient's shares, and what is left is what was there less that.
pub record Taken (d percent : ℕ) (cs rs : List Coin) (out : List Coin × List Coin) : Type 0 where
  pub of_all : out.0 ≡ shares percent cs
  pub balanced : amount_of d out.1 + amount_of d out.0 ≡ amount_of d rs
  pub same_denoms : SameDenoms cs out.1

taken :
    (d percent : ℕ) (cs rs : List Coin)
    → SameDenoms cs rs
    → WhenOk (Taken d percent cs rs) (take_shares percent cs rs)
unfolding take_shares
taken d percent [] [] h = record { of_all = refl; balanced = refl; same_denoms = tt }
taken d percent [] (r ∷ rs) h = absurd h
taken d percent (c ∷ cs) [] h = absurd h
taken d percent (c ∷ cs) (r ∷ rs) (denom, h) =
    let After = Taken d percent (c ∷ cs) (r ∷ rs) in
    WhenOk-bind After (share c.amount percent) _ λ amount e.
      WhenOk-bind After (checked_sub r.amount amount) _ λ left f.
        WhenOk-bind After (take_shares percent cs rs) _ λ out g.
          let rest = WhenOk-ok (Taken d percent cs rs) _ (taken d percent cs rs h) g in
          let one = share-eq c.amount percent e in
          let (whole, _) = checked_sub-eq-ok r.amount amount f in
          let others = rest.balanced in
          record {
            of_all = λ i. record c { amount = one i } ∷ rest.of_all i;
            balanced = ground (arith, denom, whole, others);
            same_denoms = (denom, rest.same_denoms);
          }

pub take_shares-Taken :
    (d percent : ℕ) (cs rs : List Coin) {out : List Coin × List Coin}
    → SameDenoms cs rs
    → take_shares percent cs rs ≡ ok out
    → Taken d percent cs rs out
take_shares-Taken d percent cs rs h e =
    WhenOk-ok _ (take_shares percent cs rs) (taken d percent cs rs h) e
