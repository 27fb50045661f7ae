-- ===== src/Vesting/Invariant/Listed.antt =====
-- The batches that the index lists are stored, and each is listed once.
use flexible_pay_crowdfund_a.Base.{
  ℕ, zero, suc, ◌≡◌, ap, ◌∙◌, false, some, List, [], ◌∷◌, take, arith, ◌==◌, leb, if◌then◌else◌,
  Bool-cases, inl, inr,
}
use flexible_pay_crowdfund_a.Chain.Result.{
  WhenOk, WhenOk-ok, WhenOk-bind, or_err, or_err-eq-ok, not_found,
}
use flexible_pay_crowdfund_a.Chain.Dict.{
  Dict, may_load, save, IsSorted, Above, Above-mono, Above-IsSorted, may_load-save,
}
use flexible_pay_crowdfund_a.Vesting.State.{
  Batch, ClaimTime, insert_by_lockup, is_claimable, claimable_entries, load_batches,
}

-- An id is not in a list, and no id is in it twice.
abbrev pub Apart : {V : Type 0} → ℕ → List (ℕ × V) → Type 0
Apart k [] = Unit
Apart k ((j, v) ∷ es) = ((j == k) ≡ false) × Apart k es

abbrev pub Once : {V : Type 0} → List (ℕ × V) → Type 0
Once [] = Unit
Once ((j, v) ∷ es) = Apart j es × Once es

flipped : (j k : ℕ) → (j == k) ≡ false → (k == j) ≡ false
flipped j k h = ground arith

insert_by_lockup-Apart :
    (k id : ℕ) (c : ClaimTime) (es : List (ℕ × ClaimTime))
    → (id == k) ≡ false
    → Apart k es
    → Apart k (insert_by_lockup (id, c) es)
unfolding insert_by_lockup
insert_by_lockup-Apart k id c [] h a = (h, tt)
insert_by_lockup-Apart k id c ((j, e) ∷ es) h a =
    elim (Bool-cases (leb c.lockup_end e.lockup_end)) [
      | inl before ↦ rw before (h, a)
      | inr after ↦ rw after (a.0, insert_by_lockup-Apart k id c es h a.1)
    ]

insert_by_lockup-Once :
    (id : ℕ) (c : ClaimTime) (es : List (ℕ × ClaimTime))
    → Apart id es
    → Once es
    → Once (insert_by_lockup (id, c) es)
unfolding insert_by_lockup
insert_by_lockup-Once id c [] a o = (tt, tt)
insert_by_lockup-Once id c ((j, e) ∷ es) a o = elim (Bool-cases (leb c.lockup_end e.lockup_end)) [
  | inl before ↦ rw before (a, o)
  | inr after ↦ rw after (
    insert_by_lockup-Apart j id c es (flipped j id a.0) o.0,
    insert_by_lockup-Once id c es a.1 o.1,
  )
]

claimable_entries-Apart :
    (k now : ℕ) (d : Dict ClaimTime) → Above k d → Apart k (claimable_entries now d)
unfolding claimable_entries
claimable_entries-Apart k now [] a = tt
claimable_entries-Apart k now ((j, c) ∷ d) a =
    let differ : (j == k) ≡ false = ground arith in
    let rest = claimable_entries-Apart k now d (Above-mono k j d (omega (arith, a)) a.1) in
    elim (Bool-cases (is_claimable now c)) [
      | inl open_now ↦
          rw open_now (insert_by_lockup-Apart k j c (claimable_entries now d) differ rest)
      | inr closed ↦ rw closed rest
    ]

pub claimable_entries-Once :
    (now : ℕ) (d : Dict ClaimTime) → IsSorted d → Once (claimable_entries now d)
unfolding claimable_entries
claimable_entries-Once now [] v = tt
claimable_entries-Once now ((j, c) ∷ d) v =
    let rest = claimable_entries-Once now d (Above-IsSorted j d v) in
    elim (Bool-cases (is_claimable now c)) [
      | inl open_now ↦ rw open_now (
          insert_by_lockup-Once j c (claimable_entries now d) (claimable_entries-Apart j now d v)
            rest)
      | inr closed ↦ rw closed rest
    ]

take-Apart : (n k : ℕ) (es : List (ℕ × ClaimTime)) → Apart k es → Apart k (take n es)
take-Apart zero k es a = tt
take-Apart (suc n) k [] a = tt
take-Apart (suc n) k ((j, c) ∷ es) a = (a.0, take-Apart n k es a.1)

pub take-Once : (n : ℕ) (es : List (ℕ × ClaimTime)) → Once es → Once (take n es)
take-Once zero es o = tt
take-Once (suc n) [] o = tt
take-Once (suc n) ((j, c) ∷ es) o = (take-Apart n j es o.0, take-Once n es o.1)

-- The listed batches are those stored.
abbrev pub Loaded : List (ℕ × Batch) → Dict Batch → Type 0
Loaded [] d = Unit
Loaded ((id, b) ∷ bs) d = (may_load id d ≡ some b) × Loaded bs d

-- A list of batches, each stored, with each id once.
abbrev pub Listed : Dict Batch → List (ℕ × Batch) → Type 0
Listed d bs = Loaded bs d × Once bs

load_batches-Apart :
    (d : Dict Batch) (k : ℕ) (es : List (ℕ × ClaimTime))
    → Apart k es
    → WhenOk (λ bs. Apart k bs) (load_batches d es)
load_batches-Apart d k [] a = tt
load_batches-Apart d k ((j, c) ∷ es) a =
    let After : List (ℕ × Batch) → Type 0 = λ bs. Apart k bs in
    WhenOk-bind After (or_err (may_load j d) not_found) _ λ b _.
      WhenOk-bind After (load_batches d es) _
        λ bs loaded. (a.0, WhenOk-ok After _ (load_batches-Apart d k es a.1) loaded)

pub load_batches-Listed :
    (d : Dict Batch) (es : List (ℕ × ClaimTime)) → Once es → WhenOk (Listed d) (load_batches d es)
load_batches-Listed d [] o = (tt, tt)
load_batches-Listed d ((j, c) ∷ es) o =
    WhenOk-bind (Listed d) (or_err (may_load j d) not_found) _ λ b found.
      WhenOk-bind (Listed d) (load_batches d es) _ λ bs loaded.
        let rest = WhenOk-ok (Listed d) _ (load_batches-Listed d es o.1) loaded in
        let apart = WhenOk-ok (λ bs. Apart j bs) _ (load_batches-Apart d j es o.0) loaded in
        ((or_err-eq-ok (may_load j d) not_found found, rest.0), (apart, rest.1))

pub save-Loaded :
    (k : ℕ) (b : Batch) (bs : List (ℕ × Batch)) (d : Dict Batch)
    → Apart k bs
    → Loaded bs d
    → Loaded bs (save k b d)
save-Loaded k b [] d a l = tt
save-Loaded k b ((j, c) ∷ bs) d a l = (
  may_load-save j k b d ∙ ap (λ t. if t then some b else may_load j d) a.0 ∙ l.0,
  save-Loaded k b bs d a.1 l.1,
)
