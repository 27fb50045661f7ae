-- ===== src/Crowdfund/Transfer/Looped.antt =====
-- What the loop over the purchases of a round has done.
use flexible_pay_crowdfund_a.Base.{
  ℕ, ◌+◌, ◌≡◌, refl, ap, ◌∙◌, sym, Bool, List, [], ◌∷◌, ◌++◌, map, length, arith,
}
use mathlib.Core.List.{append_assoc, append-nil}
use flexible_pay_crowdfund_a.Chain.Result.{WhenOk, WhenOk-ok, WhenOk-bind, WhenOk-mono}
use flexible_pay_crowdfund_a.Chain.Message.{SubMsg}
use flexible_pay_crowdfund_a.Crowdfund.State.{Purchase}
use flexible_pay_crowdfund_a.Crowdfund.Transfer.{
  Round, transfer_msg, transfer_purchase, transfer_loop,
}
use flexible_pay_crowdfund_a.Crowdfund.Transfer.Removal.{removals}

-- The messages that the rates of some purchases want sent.
abbrev pub rates_of : List Purchase → List SubMsg
rates_of [] = []
rates_of (p ∷ ps) = p.msgs ++ rates_of ps

-- What the loop has done after some purchases.
pub record Looped (l : ℕ) (all : Bool) (token : ℕ) (ps : List Purchase) (r s : Round) : Type 0 where
  pub kept : s.purchases ≡ (removals l all ps (r.purchases, r.number_of_last_purchases_removed)).0
  pub removed :
      s.number_of_last_purchases_removed
      ≡ (removals l all ps (r.purchases, r.number_of_last_purchases_removed)).1
  pub rates : s.rate_messages ≡ r.rate_messages ++ rates_of ps
  pub transfers : s.transfer_msgs ≡ r.transfer_msgs ++ map (transfer_msg token) ps
  pub counted : s.amount_transferred ≡ r.amount_transferred + length ps

transfer_purchase-Looped :
    (l : ℕ) (all : Bool) (token : ℕ) (p : Purchase) (r : Round)
    → WhenOk (Looped l all token (p ∷ []) r) (transfer_purchase l all token p r)
unfolding transfer_purchase removals
transfer_purchase-Looped l all token p r = ground (arith, append-nil p.msgs)

Looped-cons :
    {l : ℕ} {all : Bool} {token : ℕ} {p : Purchase} {ps : List Purchase} {r s t : Round}
    → Looped l all token (p ∷ []) r s
    → Looped l all token ps s t
    → Looped l all token (p ∷ ps) r t
unfolding removals
Looped-cons {l} {all} {token} {p} {ps} {r} {s} {t} h k = record {
  kept = k.kept ∙ (λ i. (removals l all ps (h.kept i, h.removed i)).0);
  removed = k.removed ∙ (λ i. (removals l all ps (h.kept i, h.removed i)).1);
  rates =
      k.rates
      ∙ ap (λ ms. ms ++ rates_of ps) (h.rates ∙ ap (◌++◌ r.rate_messages) (append-nil p.msgs))
      ∙ append_assoc r.rate_messages p.msgs (rates_of ps);
  transfers =
      k.transfers
      ∙ ap (λ ms. ms ++ map (transfer_msg token) ps) h.transfers
      ∙ append_assoc r.transfer_msgs (transfer_msg token p ∷ []) (map (transfer_msg token) ps);
  counted = omega (arith, k.counted, h.counted);
}

pub transfer_loop-Looped :
    (l : ℕ) (all : Bool) (token : ℕ) (ps : List Purchase) (r : Round)
    → WhenOk (Looped l all token ps r) (transfer_loop l all token ps r)
unfolding transfer_loop removals
transfer_loop-Looped l all token [] r = record {
  kept = refl;
  removed = refl;
  rates = sym (append-nil r.rate_messages);
  transfers = sym (append-nil r.transfer_msgs);
  counted = omega arith;
}
transfer_loop-Looped l all token (p ∷ ps) r =
    let After : Round → Type 0 = Looped l all token (p ∷ ps) r in
    WhenOk-bind After (transfer_purchase l all token p r) _ λ s e.
      let first = WhenOk-ok _ _ (transfer_purchase-Looped l all token p r) e in
      WhenOk-mono (Looped l all token ps s) After (λ t k. Looped-cons first k)
        (transfer_loop l all token ps s) (transfer_loop-Looped l all token ps s)
