-- ===== src/Crowdfund/Invariant.antt =====
-- The invariant of the crowdfund contract's storage.
mod Lists
pub mod Handlers
pub mod Starting
pub mod Minting
mod Rounds
pub mod Ending
use flexible_pay_crowdfund_a.Base.{ℕ, ◌+◌, ◌≤◌, ◌≡◌, Option, none, some, List, [], ◌∷◌, length}
use flexible_pay_crowdfund_a.Chain.Uint.{u32_max}
use flexible_pay_crowdfund_a.Chain.Dict.{Dict, IsSorted}
use flexible_pay_crowdfund_a.Crowdfund.State.{Store, State, Purchase}
use flexible_pay_crowdfund_a.Crowdfund.Transfer.{flat}
use flexible_pay_crowdfund_a.Crowdfund.Transfer.Blocks.{IsOwned}

-- The stored purchases are those sold and not yet transferred; without a sale there are none.
abbrev pub IsBalanced : Option State → ℕ → Type 0
IsBalanced none n = n ≡ 0
IsBalanced (some s) n = n + s.amount_transferred ≡ s.amount_sold

-- No list is longer than a limit.
abbrev pub AllWithin : ℕ → Dict (List Purchase) → Type 0
AllWithin m [] = Unit
AllWithin m ((k, ps) ∷ d) = (length ps ≤ m) × AllWithin m d

abbrev pub IsLimited : Option State → Dict (List Purchase) → Type 0
IsLimited none d = Unit
IsLimited (some s) d = (s.max_amount_per_wallet ≤ u32_max) × AllWithin s.max_amount_per_wallet d

pub record IsValid (store : Store) : Type 0 where
  pub sorted : IsSorted store.purchases
  pub owned : IsOwned store.purchases
  pub stock : IsSorted store.available_tokens
  pub balanced : IsBalanced store.state (length (flat store.purchases))
  pub limited : IsLimited store.state store.purchases
