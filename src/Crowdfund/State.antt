-- ===== src/Crowdfund/State.antt =====
-- The storage of the crowdfund contract: contracts/non-fungible-tokens/flexi-crowdfund/src/state.rs,
-- with `Config` and `State` of packages/andromeda-non-fungible-tokens/src/crowdfund.rs.
use flexible_pay_crowdfund_a.Base.{
  ℕ, Bool, Option, none, some, List, [], ◌∷◌, take, unwrap_or, min, ltb, if◌then◌else◌,
}
use flexible_pay_crowdfund_a.Chain.Coin.{Coin}
use flexible_pay_crowdfund_a.Chain.Dict.{Dict}
use flexible_pay_crowdfund_a.Chain.Deps.{Expiration}
use flexible_pay_crowdfund_a.Chain.Message.{SubMsg}
use flexible_pay_crowdfund_a.Ado.Base.{Ado}
use flexible_pay_crowdfund_a.Ado.Recipient.{Recipient}

pub record Config : Type 0 where
  pub token_address : ℕ
  pub can_mint_after_sale : Bool

pub record State : Type 0 where
  pub end_time : Expiration
  pub price : Coin
  pub min_tokens_sold : ℕ
  pub max_amount_per_wallet : ℕ
  pub amount_sold : ℕ
  pub amount_to_send : ℕ
  pub amount_transferred : ℕ
  pub recipient : Recipient

pub record Purchase : Type 0 where
  pub token_id : ℕ
  pub tax_amount : ℕ
  pub msgs : List SubMsg
  pub purchaser : ℕ

-- The items and maps of the contract, and those of the ADO base.
pub record Store : Type 0 where
  pub ado : Ado
  pub config : Option Config
  pub number_of_tokens_available : Option ℕ
  pub state : Option State
  pub purchases : Dict (List Purchase)
  pub available_tokens : Dict Bool
  pub sale_conducted : Option Bool

-- `MAX_LIMIT` and `DEFAULT_LIMIT` of state.rs
abbrev pub max_limit : ℕ
max_limit = 50

abbrev pub default_limit : ℕ
default_limit = 20

-- The keys after a start, which is left out itself.
abbrev pub keys_after : Option ℕ → Dict Bool → List ℕ
keys_after start [] = []
keys_after none ((k, _) ∷ d) = k ∷ keys_after none d
keys_after (some s) ((k, _) ∷ d) =
    if ltb s k then k ∷ keys_after (some s) d else keys_after (some s) d

unfoldable pub get_available_tokens : Store → Option ℕ → Option ℕ → List ℕ
get_available_tokens store start_after limit =
    take (min (unwrap_or limit default_limit) max_limit)
      (keys_after start_after store.available_tokens)
