-- ===== src/Auction/Query/Pages.antt =====
-- The pages of bids that `read_bids` of
-- contracts/non-fungible-tokens/andromeda-auction/src/state.rs cuts out.
use flexible_pay_crowdfund_a.Base.{
  ℕ, zero, suc, ◌+◌, ◌-◌, ◌≤◌, ◌<◌, ◌≡◌, refl, ap, ◌∙◌, sym, min, Option, none, some, List, [], ◌∷◌,
  ◌++◌, length, take, drop, unwrap_or, arith, length-append, take_within, drop_within, take_all,
  drop_all, ◌⊎◌, inl, inr, Bool-cases, leb, ◌&&◌, true, length-take, length-drop, drop_nil,
  take_nil,
}
use flexible_pay_crowdfund_a.Chain.Result.{ok, ◌>>=◌}
use flexible_pay_crowdfund_a.Chain.Dict.{may_load}
use flexible_pay_crowdfund_a.Chain.Uint.{add_or_panic}
use flexible_pay_crowdfund_a.Auction.State.{Bid, Store}
use flexible_pay_crowdfund_a.Auction.Query.{
  usize_max, max_limit, default_limit, OrderBy, reverse, slice, first_of, in_order, read_bids,
}

within_or_beyond : (n m : ℕ) → (n ≤ m) ⊎ (m < n)
within_or_beyond n m = elim (Bool-cases (leb n m)) [
  | inl h ↦ inl (ground arith)
  | inr h ↦ inr (ground arith)
]

module _ {ℓ} {A : Type ℓ} where
  length-reverse : (xs : List A) → length (reverse xs) ≡ length xs
  length-reverse [] = refl
  length-reverse (x ∷ xs) =
      let e = length-append (reverse xs) (x ∷ []) in
      let r = length-reverse xs in omega (arith, e, r)

  take-reverse : (n : ℕ) (xs : List A) → take n (reverse xs) ≡ reverse (drop (length xs - n) xs)
  take-reverse n [] = take_nil n ∙ ap reverse (sym (drop_nil (0 - n)))
  take-reverse n (x ∷ xs) =
      let r = length-reverse xs in
      let whole = length-reverse (x ∷ xs) in
      let left : ℕ → List A = λ k. reverse (drop k (x ∷ xs)) in
      elim (within_or_beyond n (length xs)) [
        | inl h ↦
            take_within n (reverse xs) (x ∷ []) (omega (arith, r))
            ∙ take-reverse n xs
            ∙ ap left (let same : suc (length xs - n) ≡ suc (length xs) - n = omega arith in same)
        | inr h ↦
            take_all n (reverse (x ∷ xs)) (omega (arith, whole))
            ∙ ap left (let same : 0 ≡ suc (length xs) - n = omega arith in same)
      ]

  drop-reverse : (n : ℕ) (xs : List A) → drop n (reverse xs) ≡ reverse (take (length xs - n) xs)
  drop-reverse n [] = drop_nil n ∙ ap reverse (sym (take_nil (0 - n)))
  drop-reverse n (x ∷ xs) =
      let r = length-reverse xs in
      let whole = length-reverse (x ∷ xs) in
      let left : ℕ → List A = λ k. reverse (take k (x ∷ xs)) in
      elim (within_or_beyond n (length xs)) [
        | inl h ↦
            drop_within n (reverse xs) (x ∷ []) (omega (arith, r))
            ∙ ap (λ ys. ys ++ x ∷ []) (drop-reverse n xs)
            ∙ ap left (let same : suc (length xs - n) ≡ suc (length xs) - n = omega arith in same)
        | inr h ↦
            drop_all n (reverse (x ∷ xs)) (omega (arith, whole))
            ∙ ap left (let same : 0 ≡ suc (length xs) - n = omega arith in same)
      ]

  take-drop : (i n : ℕ) (xs : List A) → take n (drop i xs) ≡ drop i (take (i + n) xs)
  take-drop zero n xs = ap (λ k. take k xs) (omega arith)
  take-drop (suc i) n [] =
      take_nil n ∙ sym (drop_nil (suc i)) ∙ ap (drop (suc i)) (sym (take_nil (suc i + n)))
  take-drop (suc i) n (x ∷ xs) =
      take-drop i n xs
      ∙ ap (λ k. drop (suc i) (take k (x ∷ xs)))
          (let same : suc (i + n) ≡ suc i + n = omega arith in same)

  take-min : (n : ℕ) (xs : List A) → take n xs ≡ take (min n (length xs)) xs
  take-min n xs = elim (within_or_beyond n (length xs)) [
    | inl h ↦ ap (λ k. take k xs) (omega arith)
    | inr h ↦ take_all n xs (omega arith) ∙ sym (take_all (min n (length xs)) xs (omega arith))
  ]

  drop-min : (n : ℕ) (xs : List A) → drop n xs ≡ drop (min n (length xs)) xs
  drop-min n xs = elim (within_or_beyond n (length xs)) [
    | inl h ↦ ap (λ k. drop k xs) (omega arith)
    | inr h ↦ drop_all n xs (omega arith) ∙ sym (drop_all (min n (length xs)) xs (omega arith))
  ]

  -- Only as many elements as there are count.
  take_same :
      (m n : ℕ) (xs : List A) → min m (length xs) ≡ min n (length xs) → take m xs ≡ take n xs
  take_same m n xs h = take-min m xs ∙ ap (λ k. take k xs) h ∙ sym (take-min n xs)

  drop_same :
      (m n : ℕ) (xs : List A) → min m (length xs) ≡ min n (length xs) → drop m xs ≡ drop n xs
  drop_same m n xs h = drop-min m xs ∙ ap (λ k. drop k xs) h ∙ sym (drop-min n xs)

min_idem : (n m : ℕ) → min (min m n) m ≡ min n m
min_idem n m = omega arith

-- Cutting a list at both ends.
pub slice-ok {ℓ} :
    {A : Type ℓ} (start end : ℕ) (xs : List A)
    → start ≤ end
    → end ≤ length xs
    → slice start end xs ≡ ok (take (end - start) (drop start xs))
unfolding slice
slice-ok start end xs h k =
    let inside : (leb start end && leb end (length xs)) ≡ true = ground arith in rw inside refl

module _ {ℓ} {A : Type ℓ} (s l : ℕ) (xs : List A) where
  page_asc : slice (min (length xs) s) (min (s + l) (length xs)) xs ≡ ok (take l (drop s xs))
  page_asc =
      let n = length xs in
      let start : drop (min n s) xs ≡ drop s xs = drop_same (min n s) s xs (omega arith) in
      let left = length-drop s xs in
      slice-ok (min n s) (min (s + l) n) xs (omega arith) (omega arith)
      ∙ ap (λ ys. ok (take (min (s + l) n - min n s) ys)) start
      ∙ ap ok (take_same (min (s + l) n - min n s) l (drop s xs) (omega (arith, left)))

  page_desc :
      (slice (length xs - min (length xs) (s + l)) (length xs - min s (length xs)) xs >>= λ page.
      ok (reverse page))
      ≡ ok (take l (drop s (reverse xs)))
  page_desc =
      let n = length xs in
      let lo = n - min n (s + l) in
      let hi = n - min s n in
      let held = length-take (n - s) xs in
      let top : lo + (hi - lo) ≡ n - s = omega arith in
      let bottom : lo ≡ length (take (n - s) xs) - l = omega (arith, held) in
      let cut : take (hi - lo) (drop lo xs)
          ≡ drop (length (take (n - s) xs) - l) (take (n - s) xs) =
        take-drop lo (hi - lo) xs ∙ λ i. drop (bottom i) (take (top i) xs) in
      ap (λ r. r >>= λ page. ok (reverse page)) (slice-ok lo hi xs (omega arith) (omega arith))
      ∙ ap (λ page. ok (reverse page)) cut
      ∙ ap ok (sym (take-reverse l (take (n - s) xs)))
      ∙ ap (λ ys. ok (take l ys)) (sym (drop-reverse s xs))

-- A list of bids in the order asked for.
abbrev pub ordered : Option OrderBy → List Bid → List Bid
ordered (some OrderBy.desc) bids = reverse bids
ordered (some OrderBy.asc) bids = bids
ordered none bids = bids

in_order-ordered :
    (order_by : Option OrderBy) (s l : ℕ) (bids : List Bid)
    → in_order order_by s (s + l) bids ≡ ok (take l (drop s (ordered order_by bids)))
in_order-ordered (some OrderBy.desc) s l bids = page_desc s l bids
in_order-ordered (some OrderBy.asc) s l bids = page_asc s l bids
in_order-ordered none s l bids = page_asc s l bids

-- How many bids come before a page.
abbrev pub skipped : Option ℕ → ℕ
skipped none = 0
skipped (some x) = x + 1

first_of-skipped :
    (start_after : Option ℕ)
    → skipped start_after ≤ usize_max
    → first_of start_after ≡ ok (skipped start_after)
first_of-skipped none h = refl
first_of-skipped (some x) h = ground arith

-- A page of bids is what is asked for of the whole record in that order, at most 30 bids and 10 if
-- no number is given; no slice panics, in either order and for any page beyond the end, as long as
-- the position fits the machine's word.
pub read_bids-ordered :
    (store : Store) (auction_id : ℕ) (start_after limit : Option ℕ) (order_by : Option OrderBy)
    {bids : List Bid}
    → may_load auction_id store.bids ≡ some bids
    → skipped start_after + max_limit ≤ usize_max
    → read_bids store auction_id start_after limit order_by
      ≡ ok (
          take
            (min (unwrap_or limit default_limit) max_limit)
            (drop (skipped start_after) (ordered order_by bids)))
unfolding read_bids
read_bids-ordered store auction_id start_after limit order_by {bids} found small =
    let s = skipped start_after in
    let l = min (unwrap_or limit default_limit) max_limit in
    let first : first_of start_after ≡ ok s = first_of-skipped start_after (omega arith) in
    let end : add_or_panic usize_max s l ≡ ok (s + l) = ground arith in
    rw (found, first, end) (in_order-ordered order_by s l bids)
