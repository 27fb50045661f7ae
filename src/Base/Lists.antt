-- ===== src/Base/Lists.antt =====
-- List functions over the native numbers, under the names of the libraries' own.
use Prim.Native.Nat.{ℕ, zero, suc, ◌+◌, ◌-◌, ◌≤◌, min}
use mathlib.Core.Path.{◌≡◌, refl, ap, ◌∙◌}
use mathlib.Core.Bool.{Bool, true, false}
use mathlib.Core.Option.{Option, none, some}
use mathlib.Core.List.{List, [], ◌∷◌, ◌++◌}
use native.Mathlib.Omega.{arith}

sub-zero_of : (n : ℕ) → n - 0 ≡ n
sub-zero_of n = omega arith

zero-sub_of : (n : ℕ) → 0 - n ≡ 0
zero-sub_of n = omega arith

suc-sub_of : (n m : ℕ) → suc n - suc m ≡ n - m
suc-sub_of n m = omega arith

module _ {ℓ} {A : Type ℓ} where
  abbrev pub length : List A → ℕ
  length [] = 0
  length (x ∷ xs) = suc (length xs)

  abbrev pub take : ℕ → List A → List A
  take zero xs = []
  take (suc n) [] = []
  take (suc n) (x ∷ xs) = x ∷ take n xs

  abbrev pub drop : ℕ → List A → List A
  drop zero xs = xs
  drop (suc n) [] = []
  drop (suc n) (x ∷ xs) = drop n xs

  abbrev pub get_elem? : List A → ℕ → Option A
  get_elem? [] i = none
  get_elem? (x ∷ xs) zero = some x
  get_elem? (x ∷ xs) (suc i) = get_elem? xs i

  abbrev pub is_empty : List A → Bool
  is_empty [] = true
  is_empty (x ∷ xs) = false

  abbrev pub unwrap_or : Option A → A → A
  unwrap_or none d = d
  unwrap_or (some a) d = a

  pub length-append : (xs ys : List A) → length (xs ++ ys) ≡ length xs + length ys
  length-append [] ys = omega arith
  length-append (x ∷ xs) ys = omega (arith, length-append xs ys)

  pub length-take : (n : ℕ) (xs : List A) → length (take n xs) ≡ min n (length xs)
  length-take zero xs = omega arith
  length-take (suc n) [] = omega arith
  length-take (suc n) (x ∷ xs) = omega (arith, length-take n xs)

  pub length-drop : (n : ℕ) (xs : List A) → length (drop n xs) ≡ length xs - n
  length-drop zero xs = omega arith
  length-drop (suc n) [] = omega arith
  length-drop (suc n) (x ∷ xs) = omega (arith, length-drop n xs)

  pub take-append :
      (n : ℕ) (xs ys : List A) → take n (xs ++ ys) ≡ take n xs ++ take (n - length xs) ys
  take-append zero [] ys = refl
  take-append zero (x ∷ xs) ys = rw (zero-sub_of (suc (length xs)))
  take-append (suc n) [] ys = rw (sub-zero_of (suc n))
  take-append (suc n) (x ∷ xs) ys = rw (suc-sub_of n (length xs)) (ap (◌∷◌ x) (take-append n xs ys))

  pub drop-append :
      (n : ℕ) (xs ys : List A) → drop n (xs ++ ys) ≡ drop n xs ++ drop (n - length xs) ys
  drop-append zero [] ys = refl
  drop-append zero (x ∷ xs) ys = rw (zero-sub_of (suc (length xs)))
  drop-append (suc n) [] ys = rw (sub-zero_of (suc n))
  drop-append (suc n) (x ∷ xs) ys = rw (suc-sub_of n (length xs)) (drop-append n xs ys)

  pub take_all : (n : ℕ) (xs : List A) → length xs ≤ n → take n xs ≡ xs
  take_all zero [] h = refl
  take_all zero (x ∷ xs) h = absurd (omega arith)
  take_all (suc n) [] h = refl
  take_all (suc n) (x ∷ xs) h = ap (◌∷◌ x) (take_all n xs (omega arith))

  pub drop_all : (n : ℕ) (xs : List A) → length xs ≤ n → drop n xs ≡ []
  drop_all zero [] h = refl
  drop_all zero (x ∷ xs) h = absurd (omega arith)
  drop_all (suc n) [] h = refl
  drop_all (suc n) (x ∷ xs) h = drop_all n xs (omega arith)

  pub take-take-suc : (n : ℕ) (xs : List A) → take n (take (suc n) xs) ≡ take n xs
  take-take-suc zero xs = refl
  take-take-suc (suc n) [] = refl
  take-take-suc (suc n) (x ∷ xs) = ap (◌∷◌ x) (take-take-suc n xs)

  pub length_zero : (xs : List A) → length xs ≡ 0 → xs ≡ []
  length_zero [] h = refl
  length_zero (x ∷ xs) h = absurd (omega arith)

  -- Within the first of two lists, and beyond it.
  pub take_within : (n : ℕ) (xs ys : List A) → n ≤ length xs → take n (xs ++ ys) ≡ take n xs
  take_within zero xs ys h = refl
  take_within (suc n) [] ys h = absurd (omega arith)
  take_within (suc n) (x ∷ xs) ys h = ap (◌∷◌ x) (take_within n xs ys (omega arith))

  pub drop_within : (n : ℕ) (xs ys : List A) → n ≤ length xs → drop n (xs ++ ys) ≡ drop n xs ++ ys
  drop_within zero xs ys h = refl
  drop_within (suc n) [] ys h = absurd (omega arith)
  drop_within (suc n) (x ∷ xs) ys h = drop_within n xs ys (omega arith)

  pub take_beyond :
      (n : ℕ) (xs ys : List A) → length xs ≤ n → take n (xs ++ ys) ≡ xs ++ take (n - length xs) ys
  take_beyond n xs ys h =
      take-append n xs ys ∙ ap (λ zs. zs ++ take (n - length xs) ys) (take_all n xs h)

  pub drop_beyond :
      (n : ℕ) (xs ys : List A) → length xs ≤ n → drop n (xs ++ ys) ≡ drop (n - length xs) ys
  drop_beyond n xs ys h =
      drop-append n xs ys ∙ ap (λ zs. zs ++ drop (n - length xs) ys) (drop_all n xs h)

  pub take_nil : (n : ℕ) → take n [] ≡ []
  take_nil zero = refl
  take_nil (suc n) = refl

  pub drop_nil : (n : ℕ) → drop n [] ≡ []
  drop_nil zero = refl
  drop_nil (suc n) = refl

  pub drop-length-take : (n : ℕ) (xs : List A) → drop (length (take n xs)) xs ≡ drop n xs
  drop-length-take zero xs = refl
  drop-length-take (suc n) [] = refl
  drop-length-take (suc n) (x ∷ xs) = drop-length-take n xs
