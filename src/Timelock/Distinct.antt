-- ===== src/Timelock/Distinct.antt =====
-- What the check of an escrow's minimum funds means: `Escrow::validate` of
-- packages/andromeda-finance/src/timelock.rs sorts the coins and compares neighbours.
use flexible_pay_crowdfund_a.Base.{
  ℕ, ◌+◌, ◌≤◌, ◌<◌, ◌≡◌, refl, ◌∙◌, sym, true, false, List, [], ◌∷◌, arith, ◌==◌, if◌then◌else◌,
  ◌↔◌, length, suc, inl, inr, Bool-cases,
}
use flexible_pay_crowdfund_a.Chain.Result.{ok, err, duplicate_coin_denoms}
use flexible_pay_crowdfund_a.Chain.Coin.{Coin}
use flexible_pay_crowdfund_a.Timelock.State.{insert_by_denom, sort_by_denom, no_duplicates}

-- How many coins have a denomination.
abbrev pub count : ℕ → List Coin → ℕ
count d [] = 0
count d (c ∷ cs) = (if c.denom == d then 1 else 0) + count d cs

insert-count :
    (d : ℕ) (c : Coin) (cs : List Coin) → count d (insert_by_denom c cs) ≡ count d (c ∷ cs)
insert-count d c [] = refl
insert-count d c (e ∷ cs) = ground (arith, insert-count d c cs)

sort-count : (d : ℕ) (cs : List Coin) → count d (sort_by_denom cs) ≡ count d cs
sort-count d [] = refl
sort-count d (c ∷ cs) =
    let i = insert-count d c (sort_by_denom cs) in let s = sort-count d cs in omega (arith, i, s)

-- From `b` on, in order.
abbrev OrderedFrom : ℕ → List Coin → Type 0
OrderedFrom b [] = Unit
OrderedFrom b (c ∷ cs) = (b ≤ c.denom) × OrderedFrom c.denom cs

insert-OrderedFrom :
    (b : ℕ) (c : Coin) (cs : List Coin)
    → b ≤ c.denom
    → OrderedFrom b cs
    → OrderedFrom b (insert_by_denom c cs)
insert-OrderedFrom b c [] h o = (h, tt)
insert-OrderedFrom b c (e ∷ cs) h o = ground (arith, insert-OrderedFrom e.denom c cs)

sort-OrderedFrom : (cs : List Coin) → OrderedFrom 0 (sort_by_denom cs)
sort-OrderedFrom [] = tt
sort-OrderedFrom (c ∷ cs) =
    insert-OrderedFrom 0 c (sort_by_denom cs) (omega arith) (sort-OrderedFrom cs)

-- Nothing below the first denomination occurs.
below : (d b : ℕ) (cs : List Coin) → OrderedFrom b cs → d < b → count d cs ≡ 0
below d b [] o h = refl
below d b (c ∷ cs) o h = ground (arith, below d c.denom cs)

the_error :
    (c e : Coin) (cs : List Coin)
    → (c.denom == e.denom) ≡ true
    → no_duplicates (c ∷ e ∷ cs) ≡ err duplicate_coin_denoms
the_error c e cs h = rw h refl

checks_rest :
    (c e : Coin) (cs : List Coin)
    → (c.denom == e.denom) ≡ false
    → no_duplicates (c ∷ e ∷ cs) ≡ no_duplicates (e ∷ cs)
checks_rest c e cs h = rw h refl

both_checks :
    (c e : Coin) (cs : List Coin)
    → no_duplicates (c ∷ e ∷ cs) ≡ ok tt
    → ((c.denom == e.denom) ≡ false) × (no_duplicates (e ∷ cs) ≡ ok tt)
both_checks c e cs h = elim (Bool-cases (c.denom == e.denom)) [
  | inl same ↦ absurd (cc (the_error c e cs same, h))
  | inr differ ↦ (differ, sym (checks_rest c e cs differ) ∙ h)
]

strict-count :
    (d : ℕ) (b : ℕ) (cs : List Coin) → OrderedFrom b cs → no_duplicates cs ≡ ok tt → count d cs ≤ 1
strict-count d b [] o h = omega arith
strict-count d b (c ∷ []) o h = ground arith
strict-count d b (c ∷ e ∷ cs) o h =
    let (differ, rest) = both_checks c e cs h in
    let later = strict-count d e.denom (e ∷ cs) (omega arith, o.1.1) rest in
    elim (Bool-cases (c.denom == d)) [
      | inl same ↦
          let none_left : count d (e ∷ cs) ≡ 0 =
            below d e.denom (e ∷ cs) (omega arith, o.1.1) (ground (arith, o.1.0)) in
          ground (arith, none_left)
      | inr other ↦ ground (arith, later)
    ]

-- Two neighbours count twice.
repeated :
    (c e : Coin) (cs : List Coin) → (c.denom == e.denom) ≡ true → 2 ≤ count c.denom (c ∷ e ∷ cs)
repeated c e cs h = ground arith

fewer : (d : ℕ) (c : Coin) (cs : List Coin) → count d cs ≤ count d (c ∷ cs)
fewer d c cs = ground arith

count-no_duplicates :
    (cs : List Coin) → 0 < length cs → ((d : ℕ) → count d cs ≤ 1) → no_duplicates cs ≡ ok tt
count-no_duplicates [] some_coin h = absurd (omega (arith, some_coin))
count-no_duplicates (c ∷ []) some_coin h = refl
count-no_duplicates (c ∷ e ∷ cs) some_coin h =
    let rest =
      count-no_duplicates (e ∷ cs) (omega arith)
        (λ d. let all = h d in let f = fewer d c (e ∷ cs) in omega (arith, all, f)) in
    elim (Bool-cases (c.denom == e.denom)) [
      | inl same ↦
          let once = h c.denom in
          let twice = repeated c e cs same in absurd (omega (arith, once, twice))
      | inr differ ↦ rw differ rest
    ]

no_duplicates-length : (cs : List Coin) → no_duplicates cs ≡ ok tt → 0 < length cs
no_duplicates-length [] h = cc
no_duplicates-length (c ∷ cs) h = omega arith

insert-length : (c : Coin) (cs : List Coin) → length (insert_by_denom c cs) ≡ suc (length cs)
insert-length c [] = refl
insert-length c (e ∷ cs) = ground (arith, insert-length c cs)

sort-length : (cs : List Coin) → length (sort_by_denom cs) ≡ length cs
sort-length [] = refl
sort-length (c ∷ cs) =
    let i = insert-length c (sort_by_denom cs) in let s = sort-length cs in omega (arith, i, s)

-- The comparison of neighbours, after sorting, passes exactly if there is a coin and every
-- denomination occurs at most once.
pub no_duplicates-sort_by_denom :
    (cs : List Coin)
    → (no_duplicates (sort_by_denom cs) ≡ ok tt) ↔ ((0 < length cs) × ((d : ℕ) → count d cs ≤ 1))
no_duplicates-sort_by_denom cs =
    let long = sort-length cs in
    (
      λ passes. (
        let some_coin = no_duplicates-length (sort_by_denom cs) passes in
            omega (arith, long, some_coin),
        λ d.
            let once = strict-count d 0 (sort_by_denom cs) (sort-OrderedFrom cs) passes in
            let same = sort-count d cs in omega (arith, once, same),
      ),
      λ both.
          let some_coin = both.0 in
          count-no_duplicates (sort_by_denom cs) (omega (arith, long, some_coin))
            (λ d. let o = both.1 d in let same = sort-count d cs in omega (arith, o, same)),
    )
