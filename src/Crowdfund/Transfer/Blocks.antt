-- ===== src/Crowdfund/Transfer/Blocks.antt =====
-- The stored purchases seen as blocks, one to a buyer, and where a round of transfers cuts them.
use flexible_pay_crowdfund_a.Base.{
  ℕ, zero, suc, ◌-◌, ◌≤◌, ◌<◌, ◌≡◌, ◌≢◌, ◌⊎◌, inr, refl, List, [], ◌∷◌, ◌++◌, length, take, arith,
  length-append,
}
use flexible_pay_crowdfund_a.Chain.Result.{ok}
use flexible_pay_crowdfund_a.Chain.Dict.{Dict, Above, Above-mono}
use flexible_pay_crowdfund_a.Crowdfund.State.{Purchase}
use flexible_pay_crowdfund_a.Crowdfund.Paid.{BoughtBy}
use flexible_pay_crowdfund_a.Crowdfund.Transfer.{flat, last_purchasers}

-- Each entry holds purchases of its key's buyer.
abbrev pub IsOwned : Dict (List Purchase) → Type 0
IsOwned [] = Unit
IsOwned ((k, ps) ∷ d) = BoughtBy k ps × IsOwned d

-- The first `m` purchases end with a block.
abbrev pub IsAligned : ℕ → Dict (List Purchase) → Type 0
IsAligned m [] = Unit
IsAligned m ((k, ps) ∷ d) = (m ≡ 0) ⊎ ((length ps ≤ m) × IsAligned (m - length ps) d)

-- The first `m` purchases end within the block of `l`, or with it and no purchase is left.
abbrev pub EndsAt : ℕ → ℕ → Dict (List Purchase) → Type 0
EndsAt l m [] = ⊥
EndsAt l m ((k, ps) ∷ d) =
    ((k ≡ l) × ((m ≤ length ps) ⊎ (flat d ≡ [])))
    ⊎ ((k ≢ l) × (length ps ≤ m) × EndsAt l (m - length ps) d)

-- Every buyer is above `k`.
abbrev pub BuyersAbove : ℕ → List Purchase → Type 0
BuyersAbove k [] = Unit
BuyersAbove k (p ∷ ps) = (k < p.purchaser) × BuyersAbove k ps

BuyersAbove-append :
    (k : ℕ) (ps qs : List Purchase) → BuyersAbove k ps → BuyersAbove k qs → BuyersAbove k (ps ++ qs)
BuyersAbove-append k [] qs h g = g
BuyersAbove-append k (p ∷ ps) qs h g = (h.0, BuyersAbove-append k ps qs h.1 g)

BoughtBy-BuyersAbove : (k j : ℕ) (ps : List Purchase) → k < j → BoughtBy j ps → BuyersAbove k ps
BoughtBy-BuyersAbove k j [] h b = tt
BoughtBy-BuyersAbove k j (p ∷ ps) h b = (omega (arith, b.0), BoughtBy-BuyersAbove k j ps h b.1)

pub flat-BuyersAbove :
    (k : ℕ) (d : Dict (List Purchase)) → Above k d → IsOwned d → BuyersAbove k (flat d)
flat-BuyersAbove k [] a o = tt
flat-BuyersAbove k ((j, ps) ∷ d) a o =
    BuyersAbove-append k ps (flat d) (BoughtBy-BuyersAbove k j ps a.0 o.0)
      (flat-BuyersAbove k d (Above-mono k j d (omega arith) a.1) o.1)

pub take-BuyersAbove : (k n : ℕ) (ps : List Purchase) → BuyersAbove k ps → BuyersAbove k (take n ps)
take-BuyersAbove k zero ps h = tt
take-BuyersAbove k (suc n) [] h = tt
take-BuyersAbove k (suc n) (p ∷ ps) h = (h.0, take-BuyersAbove k n ps h.1)

pub take-BoughtBy : (k n : ℕ) (ps : List Purchase) → BoughtBy k ps → BoughtBy k (take n ps)
take-BoughtBy k zero ps h = tt
take-BoughtBy k (suc n) [] h = tt
take-BoughtBy k (suc n) (p ∷ ps) h = (h.0, take-BoughtBy k n ps h.1)

-- The last two buyers of one block, of a block and one more, and of a list with two more.
pub last_purchasers_own :
    (k : ℕ) (p : Purchase) (ps : List Purchase)
    → BoughtBy k (p ∷ ps)
    → last_purchasers (p ∷ ps) ≡ ok (k, k)
unfolding last_purchasers
last_purchasers_own k p [] b = ground arith
last_purchasers_own k p (q ∷ []) b = ground arith
last_purchasers_own k p (q ∷ r ∷ ps) b = last_purchasers_own k q (r ∷ ps) b.1

pub last_purchasers_one :
    (k : ℕ) (p : Purchase) (ps : List Purchase) (u : Purchase)
    → BoughtBy k (p ∷ ps)
    → last_purchasers ((p ∷ ps) ++ u ∷ []) ≡ ok (k, u.purchaser)
unfolding last_purchasers
last_purchasers_one k p [] u b = ground arith
last_purchasers_one k p (q ∷ []) u b = ground arith
last_purchasers_one k p (q ∷ r ∷ ps) u b = last_purchasers_one k q (r ∷ ps) u b.1

pub last_purchasers_two :
    (ps : List Purchase) (u v : Purchase) (us : List Purchase)
    → last_purchasers (ps ++ u ∷ v ∷ us) ≡ last_purchasers (u ∷ v ∷ us)
unfolding last_purchasers
last_purchasers_two [] u v us = refl
last_purchasers_two (p ∷ []) u v us = refl
last_purchasers_two (p ∷ q ∷ []) u v us = refl
last_purchasers_two (p ∷ q ∷ r ∷ ps) u v us = last_purchasers_two (q ∷ r ∷ ps) u v us

pub last_purchasers_above :
    (k : ℕ) (ps : List Purchase) {l s : ℕ}
    → BuyersAbove k ps
    → last_purchasers ps ≡ ok (l, s)
    → (k < l) × (k < s)
unfolding last_purchasers
last_purchasers_above k [] h e = cc
last_purchasers_above k (p ∷ []) h e = ground arith
last_purchasers_above k (p ∷ q ∷ []) h e = ground arith
last_purchasers_above k (p ∷ q ∷ r ∷ ps) h e = last_purchasers_above k (q ∷ r ∷ ps) h.1 e

-- With no purchase beyond the first `m`, they end with a block.
pub IsAligned-all : (m : ℕ) (d : Dict (List Purchase)) → length (flat d) ≤ m → IsAligned m d
IsAligned-all m [] h = tt
IsAligned-all m ((k, ps) ∷ d) h =
    let sum = length-append ps (flat d) in
    inr (omega (arith, sum), IsAligned-all (m - length ps) d (omega (arith, sum)))
