-- ===== src/Timelock/Keys.antt =====
-- The keys of a recipient's escrows are those of entries that are there, in ascending order.
use flexible_pay_crowdfund_a.Base.{
  ℕ, suc, ◌≤◌, ◌<◌, ◌≡◌, ap, ◌∙◌, sym, true, false, ◌&&◌, Option, none, some, List, [], ◌∷◌, arith,
  take, ltb, if◌then◌else◌, Bool-cases, inl, inr, ◌==◌, zero,
}
use flexible_pay_crowdfund_a.Chain.Dict.{
  Dict, may_load, remove, IsSorted, Above, Above-IsSorted, may_load-remove,
}
use flexible_pay_crowdfund_a.Timelock.State.{Escrow, keys_for}

-- Keys in ascending order, from `b` on, each with an escrow.
abbrev pub Waiting : ℕ → List ℕ → Dict Escrow → Type 0
Waiting b [] d = Unit
Waiting b (k ∷ ks) d = (b ≤ k) × ((e : Escrow) × (may_load k d ≡ some e)) × Waiting (suc k) ks d

Waiting-mono : (b c : ℕ) (ks : List ℕ) (d : Dict Escrow) → b ≤ c → Waiting c ks d → Waiting b ks d
Waiting-mono b c [] d h w = tt
Waiting-mono b c (k ∷ ks) d h w = (let l = w.0 in omega (arith, l), w.1, w.2)

pub Waiting-take :
    (n b : ℕ) (ks : List ℕ) (d : Dict Escrow) → Waiting b ks d → Waiting b (take n ks) d
Waiting-take zero b ks d w = tt
Waiting-take (suc n) b [] d w = tt
Waiting-take (suc n) b (k ∷ ks) d w = (w.0, w.1, Waiting-take n (suc k) ks d w.2)

pub Waiting-remove :
    (j b : ℕ) (ks : List ℕ) (d : Dict Escrow) → j < b → Waiting b ks d → Waiting b ks (remove j d)
Waiting-remove j b [] d h w = tt
Waiting-remove j b (k ∷ ks) d h w =
    let l = w.0 in
    let differ : (k == j) ≡ false = ground arith in
    let there : may_load k (remove j d) ≡ some w.1.0 =
      may_load-remove k j d ∙ ap (λ b. if b then none else may_load k d) differ ∙ w.1.1 in
    (l, (w.1.0, there), Waiting-remove j (suc k) ks d (omega (arith, l)) w.2)

-- A lookup above the head of a sorted map is one in its tail, and the head is found.
past_head :
    (k j : ℕ) (e : Escrow) (rest : Dict Escrow)
    → suc k ≤ j
    → may_load j ((k, e) ∷ rest) ≡ may_load j rest
past_head k j e rest h = ground arith

at_head : (k : ℕ) (e : Escrow) (rest : Dict Escrow) → may_load k ((k, e) ∷ rest) ≡ some e
at_head k e rest = ground arith

-- Every key of a map is at least `b`.
abbrev pub From : ℕ → Dict Escrow → Type 0
From b [] = Unit
From b ((k, e) ∷ rest) = b ≤ k

Above-From : (k : ℕ) (rest : Dict Escrow) → Above k rest → From (suc k) rest
Above-From k [] h = tt
Above-From k ((j, e) ∷ rest) h = omega (arith, h)

-- The keys of a recipient in the rest of a sorted map.
pub keys_for-Waiting :
    (recipient : ℕ) (start_after : Option ℕ) (b : ℕ) (rest d : Dict Escrow)
    → IsSorted rest
    → From b rest
    → ((j : ℕ) → b ≤ j → may_load j rest ≡ may_load j d)
    → Waiting b (keys_for recipient start_after rest) d
keys_for-Waiting recipient start_after b [] d sorted from agree = tt
keys_for-Waiting recipient start_after b ((k, e) ∷ rest) d sorted from agree =
    let rest_waits =
      keys_for-Waiting recipient start_after (suc k) rest d (Above-IsSorted k rest sorted)
        (Above-From k rest sorted)
        (λ j h. sym (past_head k j e rest h) ∙ agree j (omega (arith, from, h))) in
    elim (Bool-cases
      (e.recipient_addr == recipient && elim start_after [ none ↦ true | some s ↦ ltb s k ])) [
        | inl chosen ↦ rw chosen (from, (e, sym (agree k from) ∙ at_head k e rest), rest_waits)
        | inr left ↦ rw left (
            Waiting-mono b (suc k) (keys_for recipient start_after rest) d (omega (arith, from))
              rest_waits)
      ]

pub all_From : (d : Dict Escrow) → From 0 d
all_From [] = tt
all_From ((k, e) ∷ d) = omega arith
