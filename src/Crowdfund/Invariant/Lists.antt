-- ===== src/Crowdfund/Invariant/Lists.antt =====
-- Writes to the map of purchases, as the parts of the invariant see them.
use flexible_pay_crowdfund_a.Base.{
  ℕ, ◌+◌, ◌≤◌, ◌≡◌, Option, none, some, List, [], ◌∷◌, length, unwrap_or, arith, length-append, inl,
  inr, subst, Bool-cases, eqb→eq, ◌==◌,
}
use flexible_pay_crowdfund_a.Chain.Dict.{
  Dict, IsSorted, may_load, save, remove, remove-IsSorted, total, measure, total-save,
}
use flexible_pay_crowdfund_a.Crowdfund.State.{Purchase}
use flexible_pay_crowdfund_a.Crowdfund.Paid.{BoughtBy}
use flexible_pay_crowdfund_a.Crowdfund.Refund.{remove_all}
use flexible_pay_crowdfund_a.Crowdfund.Transfer.{flat}
use flexible_pay_crowdfund_a.Crowdfund.Transfer.Blocks.{IsOwned}
use flexible_pay_crowdfund_a.Crowdfund.Invariant.{AllWithin}

flat-total : (d : Dict (List Purchase)) → length (flat d) ≡ total length d
flat-total [] = omega arith
flat-total ((k, ps) ∷ d) = omega (arith, length-append ps (flat d), flat-total d)

measure-wallet : (o : Option (List Purchase)) → measure length o ≡ length (unwrap_or o [])
measure-wallet none = omega arith
measure-wallet (some ps) = omega arith

-- Saving a buyer's list replaces the old one in the number of purchases.
pub length-flat-save :
    (k : ℕ) (ps : List Purchase) (d : Dict (List Purchase))
    → IsSorted d
    → length (flat (save k ps d)) + length (unwrap_or (may_load k d) [])
      ≡ length (flat d) + length ps
length-flat-save k ps d sorted = omega (
  arith,
  flat-total (save k ps d),
  flat-total d,
  total-save length k ps d sorted,
  measure-wallet (may_load k d),
)

pub save-IsOwned :
    (k : ℕ) (ps : List Purchase) (d : Dict (List Purchase))
    → BoughtBy k ps
    → IsOwned d
    → IsOwned (save k ps d)
unfolding save
save-IsOwned k ps [] b o = (b, tt)
save-IsOwned k ps ((j, qs) ∷ d) b o = ground (arith, save-IsOwned k ps d b o.1)

pub save-AllWithin :
    (m k : ℕ) (ps : List Purchase) (d : Dict (List Purchase))
    → length ps ≤ m
    → AllWithin m d
    → AllWithin m (save k ps d)
unfolding save
save-AllWithin m k ps [] b o = (b, tt)
save-AllWithin m k ps ((j, qs) ∷ d) b o = ground (arith, save-AllWithin m k ps d b o.1)

pub may_load-BoughtBy :
    (k : ℕ) (d : Dict (List Purchase)) → IsOwned d → BoughtBy k (unwrap_or (may_load k d) [])
may_load-BoughtBy k [] o = tt
may_load-BoughtBy k ((j, ps) ∷ d) o = elim (Bool-cases (k == j)) [
  | inl e ↦ rw e (subst (λ i. BoughtBy i ps) (omega (arith, eqb→eq k j e)) o.0)
  | inr ne ↦ rw ne (may_load-BoughtBy k d o.1)
]

pub may_load-AllWithin :
    (m k : ℕ) (d : Dict (List Purchase)) → AllWithin m d → length (unwrap_or (may_load k d) []) ≤ m
may_load-AllWithin m k [] o = omega arith
may_load-AllWithin m k ((j, ps) ∷ d) o = ground (arith, may_load-AllWithin m k d o.1)

pub remove_all-IsSorted {ℓ} :
    {V : Type ℓ} (ks : List ℕ) (d : Dict V) → IsSorted d → IsSorted (remove_all ks d)
remove_all-IsSorted [] d h = h
remove_all-IsSorted (k ∷ ks) d h = remove_all-IsSorted ks (remove k d) (remove-IsSorted k d h)

-- With no purchase at all every list is empty.
pub empty-AllWithin : (m : ℕ) (d : Dict (List Purchase)) → length (flat d) ≡ 0 → AllWithin m d
empty-AllWithin m [] h = tt
empty-AllWithin m ((k, ps) ∷ d) h =
    let sum = length-append ps (flat d) in
    (omega (arith, sum), empty-AllWithin m d (omega (arith, sum)))
