-- ===== src/WeightedSplitter/Recipients.antt =====
-- The configuration of a splitter by weights, packages/andromeda-finance/src/weighted_splitter.rs, and
-- the vector operations on its recipients.
use flexible_pay_crowdfund_a.Base.{
  ℕ, suc, zero, Bool, true, false, ◌&&◌, ◌||◌, Option, none, some, List, [], ◌∷◌, ◌==◌,
  if◌then◌else◌,
}
use flexible_pay_crowdfund_a.Chain.Result.{Result, ok, ◌>>=◌}
use flexible_pay_crowdfund_a.Chain.Uint.{u128_max, checked_add}
use flexible_pay_crowdfund_a.Chain.Deps.{Expiration}
use flexible_pay_crowdfund_a.Ado.Base.{Ado}
use flexible_pay_crowdfund_a.Ado.Recipient.{Recipient}

pub record AddressWeight : Type 0 where
  pub recipient : Recipient
  pub weight : ℕ

pub record Splitter : Type 0 where
  pub recipients : List AddressWeight
  pub lock : Expiration

pub record Store : Type 0 where
  pub ado : Ado
  pub splitter : Option Splitter

-- `==` on options and on recipients
abbrev same_option : Option ℕ → Option ℕ → Bool
same_option none none = true
same_option none (some b) = false
same_option (some a) none = false
same_option (some a) (some b) = a == b

abbrev pub same_recipient : Recipient → Recipient → Bool
same_recipient r s =
    r.address == s.address
    && same_option r.msg s.msg
    && same_option r.ibc_recovery_address s.ibc_recovery_address

-- `position(|x| x.recipient == recipient)`, and `any` of the same
abbrev pub position : Recipient → List AddressWeight → Option ℕ
position r [] = none
position r (x ∷ xs) =
    let rest = position r xs in
    if same_recipient x.recipient r
    then some 0
    else elim rest [ none ↦ none | some i ↦ some (suc i) ]

abbrev pub any_recipient : Recipient → List AddressWeight → Bool
any_recipient r [] = false
any_recipient r (x ∷ xs) = same_recipient x.recipient r || any_recipient r xs

-- `recipients[i].weight = weight`
abbrev pub set_weight : ℕ → ℕ → List AddressWeight → List AddressWeight
set_weight i weight [] = []
set_weight zero weight (x ∷ xs) = record x { weight = weight } ∷ xs
set_weight (suc i) weight (x ∷ xs) = x ∷ set_weight i weight xs

-- A list without its last element, and that element.
abbrev pub pop_last : AddressWeight → List AddressWeight → List AddressWeight × AddressWeight
pop_last x [] = ([], x)
pop_last x (y ∷ ys) = let rest = pop_last y ys in (x ∷ rest.0, rest.1)

-- `swap_remove(i)`: the last element takes the place of the one removed.
abbrev pub swap_remove : ℕ → List AddressWeight → List AddressWeight
swap_remove i [] = []
swap_remove zero (x ∷ []) = []
swap_remove zero (x ∷ y ∷ ys) = let rest = pop_last y ys in rest.1 ∷ rest.0
swap_remove (suc i) (x ∷ xs) = x ∷ swap_remove i xs

abbrev pub zero_weight : List AddressWeight → Bool
zero_weight [] = false
zero_weight (x ∷ xs) = x.weight == 0 || zero_weight xs

abbrev pub add_weights : List AddressWeight → ℕ → Result ℕ
add_weights [] total_weight = ok total_weight
add_weights (x ∷ xs) total_weight = do
  total_weight' ← checked_add u128_max total_weight x.weight
  add_weights xs total_weight'

-- `find(|x| x.recipient == user)`
abbrev pub weight_of : Recipient → List AddressWeight → ℕ
weight_of r [] = 0
weight_of r (x ∷ xs) =
    let rest = weight_of r xs in if same_recipient x.recipient r then x.weight else rest
