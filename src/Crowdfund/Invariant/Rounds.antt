-- ===== src/Crowdfund/Invariant/Rounds.antt =====
-- The rounds of a sale that met its minimum keep the invariant, the last one included.
use flexible_pay_crowdfund_a.Base.{
  ℕ, zero, suc, ◌≤◌, ◌≡◌, ap, sym, subst, Bool, not, ◌||◌, ◌&&◌, List, [], ◌∷◌, length, unwrap_or,
  arith, ◌==◌, Bool-cases, inl, inr, drop, length-drop, Option-cases,
}
use flexible_pay_crowdfund_a.Chain.Result.{WhenOk, WhenOk-ok, WhenOk-bind}
use flexible_pay_crowdfund_a.Chain.Uint.{u128_max, checked_add}
use flexible_pay_crowdfund_a.Chain.Dict.{
  Dict, IsSorted, may_load, has, remove, remove-IsSorted, save-IsSorted,
}
use flexible_pay_crowdfund_a.Crowdfund.State.{Purchase}
use flexible_pay_crowdfund_a.Crowdfund.Paid.{BoughtBy}
use flexible_pay_crowdfund_a.Crowdfund.Transfer.{
  Round, remove_purchaser, transfer_purchase, transfer_loop, trim_last, slice_from,
}
use flexible_pay_crowdfund_a.Crowdfund.Transfer.Blocks.{IsOwned}
use flexible_pay_crowdfund_a.Crowdfund.Invariant.{AllWithin}
use flexible_pay_crowdfund_a.Crowdfund.Invariant.Lists.{
  save-IsOwned, save-AllWithin, may_load-BoughtBy, may_load-AllWithin,
}

-- What the invariant says of the purchases but for their number.
pub record Kept (m : ℕ) (d : Dict (List Purchase)) : Type 0 where
  pub sorted : IsSorted d
  pub owned : IsOwned d
  pub within : AllWithin m d

remove-IsOwned : (k : ℕ) (d : Dict (List Purchase)) → IsOwned d → IsOwned (remove k d)
unfolding remove
remove-IsOwned k [] o = tt
remove-IsOwned k ((j, ps) ∷ d) o = ground (arith, remove-IsOwned k d o.1)

remove-AllWithin : (m k : ℕ) (d : Dict (List Purchase)) → AllWithin m d → AllWithin m (remove k d)
unfolding remove
remove-AllWithin m k [] w = tt
remove-AllWithin m k ((j, ps) ∷ d) w = ground (arith, remove-AllWithin m k d w.1)

remove-Kept : (m k : ℕ) (d : Dict (List Purchase)) → Kept m d → Kept m (remove k d)
remove-Kept m k d v = record {
  sorted = remove-IsSorted k d v.sorted;
  owned = remove-IsOwned k d v.owned;
  within = remove-AllWithin m k d v.within;
}

remove_purchaser-Kept :
    (m l : ℕ) (all : Bool) (k n : ℕ) (d : Dict (List Purchase))
    → Kept m d
    → Kept m (remove_purchaser l all k (d, n)).0
unfolding remove_purchaser
remove_purchaser-Kept m l all k n d v = elim (Bool-cases ((not (k == l) || all) && has k d)) [
  | inl goes ↦ rw goes (remove-Kept m k d v)
  | inr stays ↦
      rw stays (elim (Bool-cases (k == l)) [ inl last ↦ rw last v | inr other ↦ rw other v ])
]

pub transfer_loop-Kept :
    (m l : ℕ) (all : Bool) (token : ℕ) (ps : List Purchase) (r : Round)
    → Kept m r.purchases
    → WhenOk (λ s. Kept m s.purchases) (transfer_loop l all token ps r)
unfolding transfer_loop transfer_purchase
transfer_loop-Kept m l all token [] r v = v
transfer_loop-Kept m l all token (p ∷ ps) r v =
    let After : Round → Type 0 = λ s. Kept m s.purchases in
    WhenOk-bind After (transfer_purchase l all token p r) _ λ s e.
      let kept : Kept m s.purchases =
        WhenOk-ok After (transfer_purchase l all token p r)
          (WhenOk-bind After (checked_add u128_max r.amount_transferred 1) _ λ _ _.
            remove_purchaser-Kept m l all p.purchaser r.number_of_last_purchases_removed r.purchases
              v)
          e in
      transfer_loop-Kept m l all token ps s kept

drop-BoughtBy : (k n : ℕ) (ps : List Purchase) → BoughtBy k ps → BoughtBy k (drop n ps)
drop-BoughtBy k zero ps b = b
drop-BoughtBy k (suc n) [] b = tt
drop-BoughtBy k (suc n) (p ∷ ps) b = drop-BoughtBy k n ps b.1

slice_from-drop : (n : ℕ) (ps : List Purchase) → WhenOk (λ qs. qs ≡ drop n ps) (slice_from n ps)
slice_from-drop n ps = ground arith

pub trim_last-Kept :
    (m l n : ℕ) (d : Dict (List Purchase)) → Kept m d → WhenOk (Kept m) (trim_last l n d)
unfolding trim_last
trim_last-Kept m l n d v = elim (Option-cases (may_load l d)) [
  | inl gone ↦ rw (gone, WhenOk, trim_last) v
  | inr (ps, found) ↦
      rw (found, WhenOk, trim_last)
        (WhenOk-bind (Kept m) (slice_from n ps) _ λ qs cut.
          let is_rest = WhenOk-ok _ (slice_from n ps) (slice_from-drop n ps) cut in
          let mine : BoughtBy l ps =
            subst (λ o. BoughtBy l (unwrap_or o [])) found (may_load-BoughtBy l d v.owned) in
          let few : length ps ≤ m =
            subst (λ o. length (unwrap_or o []) ≤ m) found (may_load-AllWithin m l d v.within) in
          let fewer : length qs ≤ m = omega (arith, ap length is_rest, length-drop n ps) in
          record {
            sorted = save-IsSorted l qs d v.sorted;
            owned =
                save-IsOwned l qs d (subst (BoughtBy l) (sym is_rest) (drop-BoughtBy l n ps mine))
                  v.owned;
            within = save-AllWithin m l qs d fewer v.within;
          })
]
