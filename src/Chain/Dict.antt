-- ===== src/Chain/Dict.antt =====
-- A storage `Map` (cw-storage-plus): entries in ascending order of the key, which is the order of
-- `range` and `keys`. Keys are texts of which only equality and order matter; they are numbers here.
pub mod Every
use flexible_pay_crowdfund_a.Base.{
  ℕ, ◌+◌, ◌<◌, ◌≤◌, ◌≡◌, refl, Bool, true, false, Option, none, some, List, [], ◌∷◌, arith, ltb,
  ◌==◌, if◌then◌else◌,
}

abbrev pub Dict {ℓ} : Type ℓ → Type ℓ
Dict V = List (ℕ × V)

module _ {ℓ} {V : Type ℓ} where
  abbrev pub may_load : ℕ → Dict V → Option V
  may_load k [] = none
  may_load k ((j, v) ∷ d) = if k == j then some v else may_load k d

  abbrev pub has : ℕ → Dict V → Bool
  has k d = elim (may_load k d) [ none ↦ false | some _ ↦ true ]

  unfoldable pub save : ℕ → V → Dict V → Dict V
  save k v [] = (k, v) ∷ []
  save k v ((j, w) ∷ d) =
      if k == j then (k, v) ∷ d else if ltb k j then (k, v) ∷ (j, w) ∷ d else (j, w) ∷ save k v d

  unfoldable pub remove : ℕ → Dict V → Dict V
  remove k [] = []
  remove k ((j, w) ∷ d) = if k == j then remove k d else (j, w) ∷ remove k d

  -- Every key is above `k`, in strictly ascending order.
  abbrev pub Above : ℕ → Dict V → Type 0
  Above k [] = Unit
  Above k ((j, v) ∷ d) = (k < j) × Above j d

  abbrev pub IsSorted : Dict V → Type 0
  IsSorted [] = Unit
  IsSorted ((j, v) ∷ d) = Above j d

  pub may_load-save :
      (j k : ℕ) (v : V) (d : Dict V)
      → may_load j (save k v d) ≡ (if j == k then some v else may_load j d)
  unfolding save
  may_load-save j k v [] = refl
  may_load-save j k v ((i, w) ∷ d) = ground (arith, may_load-save j k v d)

  pub may_load-remove :
      (j k : ℕ) (d : Dict V) → may_load j (remove k d) ≡ (if j == k then none else may_load j d)
  unfolding remove
  may_load-remove j k [] = ground arith
  may_load-remove j k ((i, w) ∷ d) = ground (arith, may_load-remove j k d)

  pub Above-mono : (i j : ℕ) (d : Dict V) → i ≤ j → Above j d → Above i d
  Above-mono i j [] h a = tt
  Above-mono i j ((k, v) ∷ d) h a = (omega arith, a.1)

  pub Above-IsSorted : (k : ℕ) (d : Dict V) → Above k d → IsSorted d
  Above-IsSorted k [] a = tt
  Above-IsSorted k ((j, v) ∷ d) a = a.1

  pub may_load-Above : (i k : ℕ) (d : Dict V) → Above k d → i ≤ k → may_load i d ≡ none
  may_load-Above i k [] a h = refl
  may_load-Above i k ((j, v) ∷ d) a h = ground (arith, may_load-Above i j d a.1)

  pub save-Above : (i k : ℕ) (v : V) (d : Dict V) → Above i d → i < k → Above i (save k v d)
  unfolding save
  save-Above i k v [] a h = (h, tt)
  save-Above i k v ((j, w) ∷ d) a h = ground (arith, save-Above j k v d a.1)

  pub save-IsSorted : (k : ℕ) (v : V) (d : Dict V) → IsSorted d → IsSorted (save k v d)
  unfolding save
  save-IsSorted k v [] a = tt
  save-IsSorted k v ((j, w) ∷ d) a = ground (arith, save-Above j k v d a)

  pub remove-Above : (i k : ℕ) (d : Dict V) → Above i d → Above i (remove k d)
  unfolding remove
  remove-Above i k [] a = tt
  remove-Above i k ((j, w) ∷ d) a =
      ground (arith, remove-Above j k d a.1, Above-mono i j (remove k d))

  pub remove-IsSorted : (k : ℕ) (d : Dict V) → IsSorted d → IsSorted (remove k d)
  unfolding remove
  remove-IsSorted k [] a = tt
  remove-IsSorted k ((j, w) ∷ d) a =
      ground (arith, remove-Above j k d a, Above-IsSorted j (remove k d))

  -- Removing an absent key changes nothing.
  pub remove_absent : (k : ℕ) (d : Dict V) → may_load k d ≡ none → remove k d ≡ d
  unfolding remove
  remove_absent k [] h = refl
  remove_absent k ((j, w) ∷ d) h = ground (arith, remove_absent k d)

  -- Removing an entry that was just saved.
  pub remove-save : (k : ℕ) (v : V) (d : Dict V) → remove k (save k v d) ≡ remove k d
  unfolding save remove
  remove-save k v [] = ground arith
  remove-save k v ((j, w) ∷ d) = ground (arith, remove-save k v d)

  -- The sum of a measure of the values.
  abbrev pub total : (V → ℕ) → Dict V → ℕ
  total f [] = 0
  total f ((j, v) ∷ d) = f v + total f d

  abbrev pub measure : (V → ℕ) → Option V → ℕ
  measure f none = 0
  measure f (some v) = f v

  pub total-save :
      (f : V → ℕ) (k : ℕ) (v : V) (d : Dict V)
      → IsSorted d
      → total f (save k v d) + measure f (may_load k d) ≡ total f d + f v
  unfolding save
  total-save f k v [] a = omega arith
  total-save f k v ((j, w) ∷ d) a =
      ground (arith, total-save f k v d, Above-IsSorted j d a, may_load-Above k j d a)

  pub total-remove :
      (f : V → ℕ) (k : ℕ) (d : Dict V)
      → IsSorted d
      → total f (remove k d) + measure f (may_load k d) ≡ total f d
  unfolding remove
  total-remove f k [] a = omega arith
  total-remove f k ((j, w) ∷ d) a =
      ground
        (arith, total-remove f k d, Above-IsSorted j d a, may_load-Above k j d a, remove_absent k d)
