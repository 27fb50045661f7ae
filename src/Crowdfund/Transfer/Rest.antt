-- ===== src/Crowdfund/Transfer/Rest.antt =====
-- What the removals, and the trimming of the last buyer's entry, leave of the purchases: those that
-- the round did not process.
use mathlib.Core.List.{append-nil}
use flexible_pay_crowdfund_a.Base.{
  ℕ, ◌-◌, ◌≤◌, ◌<◌, ◌≡◌, ◌≢◌, ◌⊎◌, inl, inr, refl, ap, ◌∙◌, sym, subst, Bool, true, false, not,
  ◌||◌, some, List, [], ◌∷◌, ◌++◌, length, take, drop, arith, take_within, take_beyond, drop_within,
  drop_beyond, take_nil, drop_nil, drop-length-take, length-take, ◌==◌,
}
use flexible_pay_crowdfund_a.Chain.Dict.{Dict, Above, IsSorted, Above-IsSorted, may_load, save}
use flexible_pay_crowdfund_a.Crowdfund.State.{Purchase}
use flexible_pay_crowdfund_a.Crowdfund.Paid.{BoughtBy}
use flexible_pay_crowdfund_a.Crowdfund.Refund.{remove_all}
use flexible_pay_crowdfund_a.Crowdfund.Transfer.{flat}
use flexible_pay_crowdfund_a.Crowdfund.Transfer.Blocks.{
  IsOwned, IsAligned, EndsAt, flat-BuyersAbove, take-BuyersAbove, take-BoughtBy,
}
use flexible_pay_crowdfund_a.Crowdfund.Transfer.Removal.{
  gone, count_of, gone-append, remove_all-append, remove_all-cons, remove_all_block,
}

-- The map after the removals of the first `m` purchases.
abbrev pub swept : ℕ → Bool → ℕ → Dict (List Purchase) → Dict (List Purchase)
swept l all m d = remove_all (gone l all (take m (flat d))) d

-- Past an empty entry, and past the entry of a buyer who goes.
swept_empty :
    (k l : ℕ) (all : Bool) (m : ℕ) (d : Dict (List Purchase))
    → Above k d
    → IsOwned d
    → swept l all m ((k, []) ∷ d) ≡ (k, []) ∷ swept l all m d
swept_empty k l all m d above own =
    remove_all-cons k [] l all (take m (flat d)) d
      (take-BuyersAbove k m (flat d) (flat-BuyersAbove k d above own))

swept_block :
    (k l : ℕ) (all : Bool) (m : ℕ) (p : Purchase) (ps : List Purchase) (d : Dict (List Purchase))
    → (not (k == l) || all) ≡ true
    → BoughtBy k (p ∷ ps)
    → Above k d
    → length (p ∷ ps) ≤ m
    → swept l all m ((k, p ∷ ps) ∷ d) ≡ swept l all (m - length (p ∷ ps)) d
swept_block k l all m p ps d goes own above fits =
    let rest = take (m - length (p ∷ ps)) (flat d) in
    let whole = (k, p ∷ ps) ∷ d in
    ap (λ qs. remove_all (gone l all qs) whole) (take_beyond m (p ∷ ps) (flat d) fits)
    ∙ ap (λ ks. remove_all ks whole) (gone-append l all (p ∷ ps) rest)
    ∙ remove_all-append (gone l all (p ∷ ps)) (gone l all rest) whole
    ∙ ap (remove_all (gone l all rest)) (remove_all_block k l all p ps d goes own above)

all_go : (k l : ℕ) → (not (k == l) || true) ≡ true
all_go k l = ground arith

others_go : (k l : ℕ) → k ≢ l → (not (k == l) || false) ≡ true
others_go k l ne = ground arith

-- Where the processed purchases end with a block, removing all their buyers leaves the others.
pub flat-swept_all :
    (l m : ℕ) (d : Dict (List Purchase))
    → IsSorted d
    → IsOwned d
    → IsAligned m d
    → flat (swept l true m d) ≡ drop m (flat d)
flat-swept_all l m [] sorted own a = rw (take_nil m, drop_nil m)
flat-swept_all l m ((k, ps) ∷ d) above own (inl zero_left) = rw zero_left
flat-swept_all l m ((k, []) ∷ d) above own (inr (fits, a)) =
    ap flat (swept_empty k l true m d above own.1)
    ∙ flat-swept_all l m d (Above-IsSorted k d above) own.1
        (subst (λ n. IsAligned n d) (omega arith) a)
flat-swept_all l m ((k, p ∷ ps) ∷ d) above own (inr (fits, a)) =
    ap flat (swept_block k l true m p ps d (all_go k l) own.0 above fits)
    ∙ flat-swept_all l (m - length (p ∷ ps)) d (Above-IsSorted k d above) own.1 a
    ∙ sym (drop_beyond m (p ∷ ps) (flat d) fits)

-- Where they end at the buyer `l`, the others that they name are removed, and the entry of `l` is cut
-- by the number of its purchases among them.
pub record Trimmed (l m : ℕ) (d : Dict (List Purchase)) : Type 0 where
  pub mine : List Purchase
  pub found : may_load l (swept l false m d) ≡ some mine
  pub within : count_of l (take m (flat d)) ≤ length mine
  pub left :
      flat (save l (drop (count_of l (take m (flat d))) mine) (swept l false m d)) ≡ drop m (flat d)

gone_own : (l : ℕ) (ps : List Purchase) → BoughtBy l ps → gone l false ps ≡ []
gone_own l [] b = refl
gone_own l (p ∷ ps) b = ground (arith, gone_own l ps b.1)

count_of_own : (l : ℕ) (ps : List Purchase) → BoughtBy l ps → count_of l ps ≡ length ps
count_of_own l [] b = omega arith
count_of_own l (p ∷ ps) b = ground (arith, count_of_own l ps b.1)

count_of_other :
    (l k : ℕ) (ps qs : List Purchase)
    → k ≢ l
    → BoughtBy k ps
    → count_of l (ps ++ qs) ≡ count_of l qs
count_of_other l k [] qs ne b = refl
count_of_other l k (p ∷ ps) qs ne b = ground (arith, count_of_other l k ps qs ne b.1)

EndsAt-Above : (k l m : ℕ) (d : Dict (List Purchase)) → EndsAt l m d → Above k d → k < l
EndsAt-Above k l m [] e above = absurd e
EndsAt-Above k l m ((j, ps) ∷ d) (inl (same, _)) above = omega (arith, above.0)
EndsAt-Above k l m ((j, ps) ∷ d) (inr (_, _, e)) above =
    let below = EndsAt-Above j l (m - length ps) d e above.1 in omega (arith, above.0)

-- The last block: it is cut, or it is the last of all.
take_last :
    (m : ℕ) (ps rest : List Purchase)
    → (m ≤ length ps) ⊎ (rest ≡ [])
    → take m (ps ++ rest) ≡ take m ps
take_last m ps rest (inl h) = take_within m ps rest h
take_last m ps rest (inr e) = rw (e, append-nil)

drop_last :
    (m : ℕ) (ps rest : List Purchase)
    → (m ≤ length ps) ⊎ (rest ≡ [])
    → drop m (ps ++ rest) ≡ drop m ps ++ rest
drop_last m ps rest (inl h) = drop_within m ps rest h
drop_last m ps rest (inr e) = rw e (ap (drop m) (append-nil ps) ∙ sym (append-nil (drop m ps)))

flat-save_here :
    (l : ℕ) (ps qs : List Purchase) (d : Dict (List Purchase))
    → (may_load l ((l, ps) ∷ d) ≡ some ps) × (flat (save l qs ((l, ps) ∷ d)) ≡ qs ++ flat d)
unfolding save
flat-save_here l ps qs d = (ground arith, ground arith)

-- A write behind an entry.
flat-save_there :
    (k l : ℕ) (ps qs : List Purchase) (d : Dict (List Purchase))
    → k < l
    → (may_load l ((k, ps) ∷ d) ≡ may_load l d)
      × (flat (save l qs ((k, ps) ∷ d)) ≡ ps ++ flat (save l qs d))
unfolding save
flat-save_there k l ps qs d below = (ground arith, ground arith)

Trimmed-here :
    (l m : ℕ) (ps : List Purchase) (d : Dict (List Purchase))
    → BoughtBy l ps
    → (m ≤ length ps) ⊎ (flat d ≡ [])
    → Trimmed l m ((l, ps) ∷ d)
Trimmed-here l m ps d own last =
    let whole = (l, ps) ∷ d in
    let taken = take_last m ps (flat d) last in
    let mine = take-BoughtBy l m ps own in
    let same : swept l false m whole ≡ whole =
      ap (λ qs. remove_all (gone l false qs) whole) taken
      ∙ ap (λ ks. remove_all ks whole) (gone_own l (take m ps) mine) in
    let counted : count_of l (take m (flat whole)) ≡ length (take m ps) =
      ap (count_of l) taken ∙ count_of_own l (take m ps) mine in
    record {
      mine = ps;
      found = ap (may_load l) same ∙ (flat-save_here l ps [] d).0;
      within = omega (arith, counted, length-take m ps);
      left =
          ap (λ w. flat (save l (drop (count_of l (take m (flat whole))) ps) w)) same
          ∙ ap (λ c. flat (save l (drop c ps) whole)) counted
          ∙ (flat-save_here l ps (drop (length (take m ps)) ps) d).1
          ∙ ap (λ qs. qs ++ flat d) (drop-length-take m ps)
          ∙ sym (drop_last m ps (flat d) last);
    }

-- Past an entry that stays, and past one that goes.
Trimmed-empty :
    (k l m : ℕ) (d : Dict (List Purchase))
    → k < l
    → Above k d
    → IsOwned d
    → Trimmed l m d
    → Trimmed l m ((k, []) ∷ d)
Trimmed-empty k l m d below above own t =
    let same = swept_empty k l false m d above own in
    let rest = swept l false m d in
    let kept = drop (count_of l (take m (flat d))) t.mine in
    record {
      mine = t.mine;
      found = ap (may_load l) same ∙ (flat-save_there k l [] [] rest below).0 ∙ t.found;
      within = t.within;
      left =
          ap (λ w. flat (save l kept w)) same ∙ (flat-save_there k l [] kept rest below).1 ∙ t.left;
    }

Trimmed-block :
    (k l m : ℕ) (p : Purchase) (ps : List Purchase) (d : Dict (List Purchase))
    → k ≢ l
    → BoughtBy k (p ∷ ps)
    → Above k d
    → length (p ∷ ps) ≤ m
    → Trimmed l (m - length (p ∷ ps)) d
    → Trimmed l m ((k, p ∷ ps) ∷ d)
Trimmed-block k l m p ps d ne own above fits t =
    let same = swept_block k l false m p ps d (others_go k l ne) own above fits in
    let rest = take (m - length (p ∷ ps)) (flat d) in
    let counted : count_of l (take m ((p ∷ ps) ++ flat d)) ≡ count_of l rest =
      ap (count_of l) (take_beyond m (p ∷ ps) (flat d) fits)
      ∙ count_of_other l k (p ∷ ps) rest ne own in
    record {
      mine = t.mine;
      found = ap (may_load l) same ∙ t.found;
      within = omega (arith, counted, t.within);
      left =
          ap (λ w. flat (save l (drop (count_of l (take m ((p ∷ ps) ++ flat d))) t.mine) w)) same
          ∙ ap (λ c. flat (save l (drop c t.mine) (swept l false (m - length (p ∷ ps)) d))) counted
          ∙ t.left
          ∙ sym (drop_beyond m (p ∷ ps) (flat d) fits);
    }

pub EndsAt-Trimmed :
    (l m : ℕ) (d : Dict (List Purchase)) → IsSorted d → IsOwned d → EndsAt l m d → Trimmed l m d
EndsAt-Trimmed l m [] sorted own e = absurd e
EndsAt-Trimmed l m ((k, ps) ∷ d) above own (inl (same, last)) =
    subst (λ j. Trimmed l m ((j, ps) ∷ d)) (sym same)
      (Trimmed-here l m ps d (subst (λ j. BoughtBy j ps) same own.0) last)
EndsAt-Trimmed l m ((k, []) ∷ d) above own (inr (ne, fits, e)) =
    let later : EndsAt l m d = subst (λ n. EndsAt l n d) (omega arith) e in
    Trimmed-empty k l m d (EndsAt-Above k l m d later above) above own.1
      (EndsAt-Trimmed l m d (Above-IsSorted k d above) own.1 later)
EndsAt-Trimmed l m ((k, p ∷ ps) ∷ d) above own (inr (ne, fits, e)) =
    Trimmed-block k l m p ps d ne own.0 above fits
      (EndsAt-Trimmed l (m - length (p ∷ ps)) d (Above-IsSorted k d above) own.1 e)
