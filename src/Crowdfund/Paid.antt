-- ===== src/Crowdfund/Paid.antt =====
-- What a list of purchases was paid for, which is what a refund owes.
use flexible_pay_crowdfund_a.Base.{ℕ, ◌+◌, ◌≡◌, List, [], ◌∷◌, ◌++◌, arith}
use flexible_pay_crowdfund_a.Crowdfund.State.{Purchase}

-- The price and the tax of each purchase.
abbrev pub paid : ℕ → List Purchase → ℕ
paid price [] = 0
paid price (p ∷ ps) = p.tax_amount + price + paid price ps

-- Every purchase was made by one buyer.
abbrev pub BoughtBy : ℕ → List Purchase → Type 0
BoughtBy buyer [] = Unit
BoughtBy buyer (p ∷ ps) = (p.purchaser ≡ buyer) × BoughtBy buyer ps

pub paid-append :
    (price : ℕ) (ps qs : List Purchase) → paid price (ps ++ qs) ≡ paid price ps + paid price qs
paid-append price [] qs = omega arith
paid-append price (p ∷ ps) qs = omega (arith, paid-append price ps qs)

pub BoughtBy-append :
    (buyer : ℕ) (ps qs : List Purchase)
    → BoughtBy buyer ps
    → BoughtBy buyer qs
    → BoughtBy buyer (ps ++ qs)
BoughtBy-append buyer [] qs h k = k
BoughtBy-append buyer (p ∷ ps) qs h k = (h.0, BoughtBy-append buyer ps qs h.1 k)
