-- ===== src/Crowdfund/Mint.antt =====
-- Minting and the token contract's address: `execute_mint`, `mint`, `execute_update_token_contract`
-- of contracts/non-fungible-tokens/flexi-crowdfund/src/contract.rs.
pub mod Effect
use flexible_pay_crowdfund_a.Base.{
  ℕ, Bool, true, false, not, ◌||◌, Option, none, some, List, [], ◌∷◌, ◌++◌, length, unwrap_or, leb,
  ◌==◌, if◌then◌else◌,
}
use flexible_pay_crowdfund_a.Chain.Result.{
  Result, ok, ◌>>=◌, ◌>>◌, ensure, or_err, not_found, unauthorized, too_many_mint_messages,
  sale_started, cannot_mint_after_sale_conducted,
}
use flexible_pay_crowdfund_a.Chain.Uint.{u128_max, add_or_panic}
use flexible_pay_crowdfund_a.Chain.Dict.{save}
use flexible_pay_crowdfund_a.Chain.Message.{new_sub_msg, wasm_execute, Payload, Response}
use flexible_pay_crowdfund_a.Chain.Deps.{Deps, Env, MessageInfo}
use flexible_pay_crowdfund_a.Ado.Base.{is_contract_owner}
use flexible_pay_crowdfund_a.Crowdfund.State.{Store}

abbrev pub max_mint_limit : ℕ
max_mint_limit = 100

-- `CrowdfundMintMsg`
pub record CrowdfundMintMsg : Type 0 where
  pub token_id : ℕ
  pub owner : Option ℕ
  pub token_uri : Option ℕ
  pub extension : ℕ

abbrev pub is_none {ℓ} : {A : Type ℓ} → Option A → Bool
is_none none = true
is_none (some a) = false

-- A token minted to the contract itself is put up for the next sale.
unfoldable pub add_available : Store → ℕ → Result Store
add_available store token_id = do
  current_number ← or_err store.number_of_tokens_available not_found
  number ← add_or_panic u128_max current_number 1
  ok (record store {
    available_tokens = save token_id true store.available_tokens;
    number_of_tokens_available = some number;
  })

unfoldable pub mint : Store → ℕ → ℕ → CrowdfundMintMsg → Result (Store × Response)
unfolding add_available
mint store crowdfund_contract token_contract m = do
  let owner = unwrap_or m.owner crowdfund_contract
  store' ← if owner == crowdfund_contract then add_available store m.token_id else ok store
  ok (
    store',
    new_sub_msg
          (wasm_execute token_contract (Payload.mint m.token_id owner m.token_uri m.extension) [])
        ∷ [],
  )

unfoldable pub mint_all :
    Store → ℕ → ℕ → List CrowdfundMintMsg → Response → Result (Store × Response)
unfolding mint
mint_all store crowdfund_contract token_contract [] resp = ok (store, resp)
mint_all store crowdfund_contract token_contract (m ∷ ms) resp = do
  (store', mint_resp) ← mint store crowdfund_contract token_contract m
  mint_all store' crowdfund_contract token_contract ms (resp ++ mint_resp)

unfoldable pub execute_mint :
    Deps → Env → MessageInfo → Store → List CrowdfundMintMsg → Result (Store × Response)
unfolding mint_all is_contract_owner
execute_mint deps env info store mint_msgs = do
  deps.nonpayable info.funds
  ensure (leb (length mint_msgs) max_mint_limit) too_many_mint_messages
  is_owner ← is_contract_owner store.ado info.sender
  ensure is_owner unauthorized
  ensure (is_none store.state) sale_started
  sale_conducted ← or_err store.sale_conducted not_found
  config ← or_err store.config not_found
  ensure (config.can_mint_after_sale || not sale_conducted) cannot_mint_after_sale_conducted
  resolved_path ← deps.get_raw_address config.token_address
  mint_all store env.contract_address resolved_path mint_msgs []

unfoldable pub execute_update_token_contract :
    Deps → MessageInfo → Store → ℕ → Result (Store × Response)
unfolding is_contract_owner
execute_update_token_contract deps info store address = do
  deps.nonpayable info.funds
  is_owner ← is_contract_owner store.ado info.sender
  ensure is_owner unauthorized
  ensure (unwrap_or store.number_of_tokens_available 0 == 0) unauthorized
  addr ← deps.get_raw_address address
  ensure (deps.is_cw721 addr) unauthorized
  config ← or_err store.config not_found
  ok (record store { config = some (record config { token_address = address }) }, [])
