-- ===== src/Crowdfund/Transfer/Trim.antt =====
-- Removing and trimming, as `transfer_tokens_and_send_funds` does after its loop, leaves the purchases
-- that the round did not process.
use flexible_pay_crowdfund_a.Base.{
  ℕ, zero, suc, ◌+◌, ◌≤◌, ◌<◌, ◌≡◌, ◌⊎◌, inl, inr, ◌∙◌, sym, subst, true, false, not, some, none,
  List, [], ◌∷◌, length, take, drop, arith, length-take, take-take-suc, take_all, ◌==◌, Bool-cases,
}
use flexible_pay_crowdfund_a.Chain.Result.{ok}
use flexible_pay_crowdfund_a.Chain.Dict.{
  Dict, IsSorted, may_load, remove, save, may_load-remove, may_load-save,
}
use flexible_pay_crowdfund_a.Crowdfund.State.{Purchase}
use flexible_pay_crowdfund_a.Crowdfund.Refund.{remove_all}
use flexible_pay_crowdfund_a.Crowdfund.Transfer.{
  flat, last_purchasers, trim_last, without_extra, slice_from,
}
use flexible_pay_crowdfund_a.Crowdfund.Transfer.Blocks.{IsOwned}
use flexible_pay_crowdfund_a.Crowdfund.Transfer.Cut.{CutAt}
use flexible_pay_crowdfund_a.Crowdfund.Transfer.Removal.{
  removals, gone, count_of, removals-gone, removals-count_of,
}
use flexible_pay_crowdfund_a.Crowdfund.Transfer.Rest.{swept, flat-swept_all, EndsAt-Trimmed}

-- A list of purchases names a buyer.
abbrev pub Mentions : ℕ → List Purchase → Type 0
Mentions l [] = ⊥
Mentions l (p ∷ ps) = (p.purchaser ≡ l) ⊎ Mentions l ps

-- Of the purchases read, the buyer of the last but one is among those processed.
pub last_purchaser-Mentions :
    (n : ℕ) (ps : List Purchase) {l s : ℕ}
    → 0 < n
    → length ps ≤ suc n
    → last_purchasers ps ≡ ok (l, s)
    → Mentions l (take n ps)
unfolding last_purchasers
last_purchaser-Mentions zero ps h fits e = absurd (omega arith)
last_purchaser-Mentions (suc n) [] h fits e = cc
last_purchaser-Mentions (suc n) (p ∷ []) h fits e = inl (ground arith)
last_purchaser-Mentions (suc n) (p ∷ q ∷ []) h fits e = inl (ground arith)
last_purchaser-Mentions (suc n) (p ∷ q ∷ r ∷ ps) h fits e =
    inr (last_purchaser-Mentions n (q ∷ r ∷ ps) (omega arith) (omega arith) e)

may_load-remove_all :
    (l : ℕ) (ks : List ℕ) (d : Dict (List Purchase))
    → may_load l d ≡ none
    → may_load l (remove_all ks d) ≡ none
may_load-remove_all l [] d h = h
may_load-remove_all l (k ∷ ks) d h =
    may_load-remove_all l ks _ (ground (arith, may_load-remove l k d))

-- A buyer who is named is gone where all go.
may_load-gone :
    (l : ℕ) (ps : List Purchase) (d : Dict (List Purchase))
    → Mentions l ps
    → may_load l (remove_all (gone l true ps) d) ≡ none
may_load-gone l [] d m = absurd m
may_load-gone l (p ∷ ps) d (inl e) = ground (
  arith,
  may_load-remove_all l (gone l true ps) (remove p.purchaser d),
  may_load-remove l p.purchaser d,
)
may_load-gone l (p ∷ ps) d (inr m) = ground (arith, may_load-gone l ps (remove p.purchaser d) m)

-- Dropping the extra purchase again leaves the first `n`.
pub without_extra-take :
    (n : ℕ) (ps : List Purchase) → without_extra n (take (suc n) ps) ≡ take n ps
without_extra-take n ps = elim (Bool-cases (n + 1 == length (take (suc n) ps))) [
  | inl full ↦ rw full (take-take-suc n ps)
  | inr short ↦
      let few : length ps ≤ n = ground (arith, length-take (suc n) ps) in
      rw short (take_all (suc n) ps (omega arith) ∙ sym (take_all n ps few))
]

slice_fits : (n : ℕ) (ps : List Purchase) → n ≤ length ps → slice_from n ps ≡ ok (drop n ps)
slice_fits n ps h = ground arith

-- After the removals, trimming succeeds and leaves the purchases that were not processed.
pub trim_rest :
    (l s m : ℕ) (d : Dict (List Purchase))
    → IsSorted d
    → IsOwned d
    → Mentions l (take m (flat d))
    → CutAt l s m d
    → let (kept, removed) = removals l (not (l == s)) (take m (flat d)) (d, 0) in
      (left : Dict (List Purchase)) × (trim_last l removed kept ≡ ok left)
      × (flat left ≡ drop m (flat d))
      × (l ≡ s → (qs : List Purchase) × (may_load l left ≡ some qs))
unfolding trim_last
trim_rest l s m d sorted own named (inl (ne, aligned)) =
    let ps = take m (flat d) in
    let all : not (l == s) ≡ true = ground arith in
    rw (all, removals-gone l true ps d 0)
      (
        swept l true m d,
        rw (may_load-gone l ps d named, trim_last),
        flat-swept_all l m d sorted own aligned,
        λ same. absurd (ne same),
      )
trim_rest l s m d sorted own named (inr (e, ends)) =
    let ps = take m (flat d) in
    let t = EndsAt-Trimmed l m d sorted own ends in
    let all : not (l == s) ≡ false = ground arith in
    let n = count_of l ps in
    let left = save l (drop n t.mine) (swept l false m d) in
    let cut : slice_from (0 + n) t.mine ≡ ok (drop n t.mine) =
      subst (λ j. slice_from j t.mine ≡ ok (drop n t.mine)) (omega arith)
        (slice_fits n t.mine t.within) in
    rw (all, removals-gone l false ps d 0, removals-count_of l ps d 0)
      (
        left,
        rw (t.found, cut, trim_last),
        t.left,
        λ _. (drop n t.mine, ground (arith, may_load-save l l (drop n t.mine) (swept l false m d))),
      )
