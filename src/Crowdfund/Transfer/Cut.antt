-- ===== src/Crowdfund/Transfer/Cut.antt =====
-- What the last two of the purchases that a round reads tell: whether the purchases that it
-- processes end with a buyer's block or within one.
use flexible_pay_crowdfund_a.Base.{
  ℕ, suc, ◌-◌, ◌≤◌, ◌<◌, ◌≡◌, ◌≢◌, ◌⊎◌, inl, inr, refl, ap, ◌∙◌, sym, subst, List, [], ◌∷◌, ◌++◌,
  length, take, min, arith, take_within, take_beyond, length-take, length_zero,
}
use mathlib.Core.List.{append-nil}
use native.Mathlib.Decide.{dec_lt, dec_le}
use flexible_pay_crowdfund_a.Chain.Result.{Result, ok}
use flexible_pay_crowdfund_a.Chain.Dict.{Dict, IsSorted, Above-IsSorted}
use flexible_pay_crowdfund_a.Crowdfund.State.{Purchase}
use flexible_pay_crowdfund_a.Crowdfund.Paid.{BoughtBy}
use flexible_pay_crowdfund_a.Crowdfund.Transfer.{flat, last_purchasers}
use flexible_pay_crowdfund_a.Crowdfund.Transfer.Blocks.{
  IsOwned, IsAligned, EndsAt, BuyersAbove, flat-BuyersAbove, take-BuyersAbove, take-BoughtBy,
  last_purchasers_own, last_purchasers_one, last_purchasers_two, last_purchasers_above,
  IsAligned-all,
}

ok-pair : {a b c d : ℕ} {r : Result (ℕ × ℕ)} → r ≡ ok (a, b) → r ≡ ok (c, d) → (a ≡ c) × (b ≡ d)
ok-pair e f = ground (arith, e, f)

-- With `l` and `s` the buyers of the last two purchases read, the first `m` end with a block if they
-- differ, and at `l` if not.
abbrev pub CutAt : ℕ → ℕ → ℕ → Dict (List Purchase) → Type 0
CutAt l s m d = ((l ≢ s) × IsAligned m d) ⊎ ((l ≡ s) × EndsAt l m d)

-- From the later blocks to all, where the first block is processed whole and is not `l`'s.
CutAt-cons :
    (k : ℕ) (ps : List Purchase) (d : Dict (List Purchase)) {l s m : ℕ}
    → k < l
    → length ps ≤ m
    → CutAt l s (m - length ps) d
    → CutAt l s m ((k, ps) ∷ d)
CutAt-cons k ps d below fits (inl (ne, a)) = inl (ne, inr (fits, a))
CutAt-cons k ps d below fits (inr (e, a)) = inr (e, inr (omega arith, fits, a))

IsAligned-zero : (d : Dict (List Purchase)) → IsAligned 0 d
IsAligned-zero [] = tt
IsAligned-zero (e ∷ d) = inl refl

-- Two purchases beyond the first block leave one to process.
enough_left :
    (n j : ℕ) (ps : List Purchase) (u v : Purchase) (ws : List Purchase)
    → suc n ≡ j
    → take j ps ≡ u ∷ v ∷ ws
    → 0 < n
enough_left n j ps u v ws e two = omega (arith, ap length two, length-take j ps)

module _ (k : ℕ) (p : Purchase) (qs : List Purchase) (d : Dict (List Purchase)) (m : ℕ) {l s : ℕ}
    (own : BoughtBy k (p ∷ qs)) (above : BuyersAbove k (flat d)) (positive : 0 < m) where
  -- The purchases read end within the first block.
  cut_within :
      suc m ≤ length (p ∷ qs)
      → last_purchasers (take (suc m) (p ∷ qs)) ≡ ok (l, s)
      → CutAt l s m ((k, p ∷ qs) ∷ d)
  cut_within fits e =
      let (el, es) =
        ok-pair e (last_purchasers_own k p (take m qs) (own.0, take-BoughtBy k m qs own.1)) in
      inr (omega arith, inl (omega arith, inl (omega arith)))

  -- They go on after it, with the purchases `us` of later blocks.
  cut_after :
      (us : List Purchase)
      → take (suc m - length (p ∷ qs)) (flat d) ≡ us
      → length (p ∷ qs) ≤ m
      → ((u v : Purchase) (ws : List Purchase)
          → us ≡ u ∷ v ∷ ws
          → last_purchasers us ≡ ok (l, s)
          → CutAt l s (m - length (p ∷ qs)) d)
      → last_purchasers ((p ∷ qs) ++ us) ≡ ok (l, s)
      → CutAt l s m ((k, p ∷ qs) ∷ d)
  cut_after [] tk fits later e =
      let (el, es) = ok-pair (rw append-nil at e) (last_purchasers_own k p qs own) in
      let none_left : flat d ≡ [] =
        length_zero (flat d)
          (omega (arith, ap length tk, length-take (suc m - length (p ∷ qs)) (flat d))) in
      inr (omega arith, inl (omega arith, inr none_left))
  cut_after (u ∷ []) tk fits later e =
      let (el, es) = ok-pair e (last_purchasers_one k p qs u own) in
      let above_u : k < u.purchaser =
        (subst (BuyersAbove k) tk
          (take-BuyersAbove k (suc m - length (p ∷ qs)) (flat d) above)).0 in
      let count : min (suc m - length (p ∷ qs)) (length (flat d)) ≡ 1 =
        sym (length-take (suc m - length (p ∷ qs)) (flat d)) ∙ ap length tk in
      let aligned : Dec (length (p ∷ qs) < m) → IsAligned (m - length (p ∷ qs)) d = elim [
        | yes lt ↦ IsAligned-all (m - length (p ∷ qs)) d (omega arith)
        | no ge ↦ subst (λ n. IsAligned n d) (omega arith) (IsAligned-zero d)
      ] in
      inl (omega arith, inr (fits, aligned (dec_lt (length (p ∷ qs)) m)))
  cut_after (u ∷ v ∷ ws) tk fits later e =
      let e' : last_purchasers (u ∷ v ∷ ws) ≡ ok (l, s) =
        sym (last_purchasers_two (p ∷ qs) u v ws) ∙ e in
      CutAt-cons k (p ∷ qs) d
        (last_purchasers_above k (u ∷ v ∷ ws)
          (subst (BuyersAbove k) tk (take-BuyersAbove k (suc m - length (p ∷ qs)) (flat d) above))
          e').0
        fits (later u v ws refl e')

-- The last two of the `m + 1` purchases that are read decide the cut of the first `m`.
pub cut_lem :
    (m : ℕ) (d : Dict (List Purchase)) {l s : ℕ}
    → 0 < m
    → IsSorted d
    → IsOwned d
    → last_purchasers (take (suc m) (flat d)) ≡ ok (l, s)
    → CutAt l s m d
unfolding last_purchasers
cut_lem m [] positive sorted own e = cc
cut_lem m ((k, []) ∷ d) {l} {s} positive above own e =
    let later = flat-BuyersAbove k d above own.1 in
    let (below, _) =
      last_purchasers_above k (take (suc m) (flat d)) (take-BuyersAbove k (suc m) (flat d) later)
        e in
    CutAt-cons k [] d below (omega arith) (
      subst (λ n. CutAt l s n d) (omega arith)
        (cut_lem m d positive (Above-IsSorted k d above) own.1 e))
cut_lem m ((k, p ∷ qs) ∷ d) {l} {s} positive above own e =
    let later = flat-BuyersAbove k d above own.1 in
    elim (dec_le (suc m) (length (p ∷ qs))) [
      | yes fits ↦
          let same = ap last_purchasers (take_within (suc m) (p ∷ qs) (flat d) fits) in
          cut_within k p qs d m own.0 later positive fits (sym same ∙ e)
      | no over ↦
          let rest = take (suc m - length (p ∷ qs)) (flat d) in
          let same = ap last_purchasers (take_beyond (suc m) (p ∷ qs) (flat d) (omega arith)) in
          let further : suc m - length (p ∷ qs) ≡ suc (m - length (p ∷ qs)) = omega arith in
          cut_after k p qs d m own.0 later positive rest refl (omega arith)
            (λ u v ws two e'.
              cut_lem (m - length (p ∷ qs)) d
                (enough_left (m - length (p ∷ qs)) (suc m - length (p ∷ qs)) (flat d) u v ws
                  (sym further) two)
                (Above-IsSorted k d above) own.1
                (subst (λ n. last_purchasers (take n (flat d)) ≡ ok (l, s)) further e'))
            (sym same ∙ e)
    ]
