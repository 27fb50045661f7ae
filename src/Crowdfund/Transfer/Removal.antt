-- ===== src/Crowdfund/Transfer/Removal.antt =====
-- What the loop over the purchases removes from the map, and what that leaves of the purchases.
use flexible_pay_crowdfund_a.Base.{
  ℕ, suc, ◌+◌, ◌≡◌, refl, Bool, true, false, not, ◌||◌, none, List, [], ◌∷◌, ◌++◌, arith, ◌==◌,
  if◌then◌else◌,
}
use flexible_pay_crowdfund_a.Chain.Dict.{
  Dict, Above, may_load, remove, remove_absent, may_load-Above,
}
use flexible_pay_crowdfund_a.Crowdfund.State.{Purchase}
use flexible_pay_crowdfund_a.Crowdfund.Paid.{BoughtBy}
use flexible_pay_crowdfund_a.Crowdfund.Refund.{remove_all}
use flexible_pay_crowdfund_a.Crowdfund.Transfer.{remove_purchaser}
use flexible_pay_crowdfund_a.Crowdfund.Transfer.Blocks.{BuyersAbove}

-- The map and the count, after the purchases of a list.
unfoldable pub removals :
    ℕ → Bool → List Purchase → Dict (List Purchase) × ℕ → Dict (List Purchase) × ℕ
removals l all [] acc = acc
removals l all (p ∷ ps) acc = removals l all ps (remove_purchaser l all p.purchaser acc)

-- The buyers whose entries go: all, or all but `l`.
abbrev pub gone : ℕ → Bool → List Purchase → List ℕ
gone l all [] = []
gone l all (p ∷ ps) =
    if not (p.purchaser == l) || all then p.purchaser ∷ gone l all ps else gone l all ps

abbrev pub count_of : ℕ → List Purchase → ℕ
count_of l [] = 0
count_of l (p ∷ ps) = if p.purchaser == l then suc (count_of l ps) else count_of l ps

pub removals-gone :
    (l : ℕ) (all : Bool) (ps : List Purchase) (d : Dict (List Purchase)) (n : ℕ)
    → (removals l all ps (d, n)).0 ≡ remove_all (gone l all ps) d
unfolding removals remove_purchaser
removals-gone l all [] d n = refl
removals-gone l all (p ∷ ps) d n = ground (
  arith,
  removals-gone l all ps (remove p.purchaser d) n,
  removals-gone l all ps d n,
  removals-gone l all ps d (n + 1),
  remove_absent p.purchaser d,
)

pub removals-count_of :
    (l : ℕ) (ps : List Purchase) (d : Dict (List Purchase)) (n : ℕ)
    → (removals l false ps (d, n)).1 ≡ n + count_of l ps
unfolding removals remove_purchaser
removals-count_of l [] d n = omega arith
removals-count_of l (p ∷ ps) d n = ground (
  arith,
  removals-count_of l ps (remove p.purchaser d) n,
  removals-count_of l ps d n,
  removals-count_of l ps d (n + 1),
)

pub gone-append :
    (l : ℕ) (all : Bool) (ps qs : List Purchase)
    → gone l all (ps ++ qs) ≡ gone l all ps ++ gone l all qs
gone-append l all [] qs = refl
gone-append l all (p ∷ ps) qs = ground (arith, gone-append l all ps qs)

pub remove_all-append {ℓ} :
    {V : Type ℓ} (ks js : List ℕ) (d : Dict V)
    → remove_all (ks ++ js) d ≡ remove_all js (remove_all ks d)
remove_all-append [] js d = refl
remove_all-append (k ∷ ks) js d = remove_all-append ks js (remove k d)

-- Removing buyers above an entry's leaves the entry.
pub remove_all-cons :
    (k : ℕ) (v : List Purchase) (l : ℕ) (all : Bool) (ps : List Purchase) (d : Dict (List Purchase))
    → BuyersAbove k ps
    → remove_all (gone l all ps) ((k, v) ∷ d) ≡ (k, v) ∷ remove_all (gone l all ps) d
unfolding remove
remove_all-cons k v l all [] d h = refl
remove_all-cons k v l all (p ∷ ps) d h =
    ground
      (arith, remove_all-cons k v l all ps d, remove_all-cons k v l all ps (remove p.purchaser d))

-- Removing one absent buyer's purchases changes nothing.
pub remove_all_absent :
    (k l : ℕ) (all : Bool) (ps : List Purchase) (d : Dict (List Purchase))
    → BoughtBy k ps
    → may_load k d ≡ none
    → remove_all (gone l all ps) d ≡ d
remove_all_absent k l all [] d own absent = refl
remove_all_absent k l all (p ∷ ps) d own absent =
    ground (arith, remove_all_absent k l all ps d own.1 absent, remove_absent k d absent)

-- A block whose buyer goes is removed whole.
pub remove_all_block :
    (k l : ℕ) (all : Bool) (p : Purchase) (ps : List Purchase) (d : Dict (List Purchase))
    → (not (k == l) || all) ≡ true
    → BoughtBy k (p ∷ ps)
    → Above k d
    → remove_all (gone l all (p ∷ ps)) ((k, p ∷ ps) ∷ d) ≡ d
unfolding remove
remove_all_block k l all p ps d goes own above =
    let absent = may_load-Above k k d above (omega arith) in
    ground (arith, remove_absent k d absent, remove_all_absent k l all ps d own.1 absent)
