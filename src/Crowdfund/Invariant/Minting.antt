-- ===== src/Crowdfund/Invariant/Minting.antt =====
-- What minting does, and that it keeps the invariant.
use flexible_pay_crowdfund_a.Base.{
  ℕ, ◌≤◌, ◌≡◌, ◌∙◌, ap, true, not, ◌||◌, none, some, List, [], length, leb, leb→le, unwrap_or,
}
use flexible_pay_crowdfund_a.Chain.Result.{
  ok, WhenOk, WhenOk-ok, WhenOk-mono, WhenOk-bind, ensure, ensure-eq-ok, or_err, or_err-eq-ok,
  not_found, unauthorized, too_many_mint_messages, sale_started, cannot_mint_after_sale_conducted,
}
use flexible_pay_crowdfund_a.Chain.Message.{Response}
use flexible_pay_crowdfund_a.Chain.Deps.{Deps, Env, MessageInfo}
use flexible_pay_crowdfund_a.Ado.Base.{is_contract_owner}
use flexible_pay_crowdfund_a.Crowdfund.State.{Store, Config}
use flexible_pay_crowdfund_a.Crowdfund.Mint.{
  max_mint_limit, CrowdfundMintMsg, is_none, mint_all, execute_mint,
}
use flexible_pay_crowdfund_a.Crowdfund.Invariant.{IsValid}
use flexible_pay_crowdfund_a.Crowdfund.Mint.Effect.{
  is_none-eq, put_up-IsSorted, with_tokens, After, mint_all-After, own_tokens, put_up, more,
  requests,
}

with_tokens-IsValid : (ts : List ℕ) (store : Store) → IsValid store → IsValid (with_tokens ts store)
with_tokens-IsValid ts store v = record {
  sorted = v.sorted;
  owned = v.owned;
  stock = put_up-IsSorted ts store.available_tokens v.stock;
  balanced = v.balanced;
  limited = v.limited;
}

-- What a successful minting has done.
pub record Minted (deps : Deps) (env : Env) (info : MessageInfo) (store : Store)
    (ms : List CrowdfundMintMsg) (out : Store × Response) : Type 0 where
  pub config : Config
  pub token : ℕ
  pub few : length ms ≤ 100
  pub by_owner : is_contract_owner store.ado info.sender ≡ ok true
  pub no_sale : store.state ≡ none
  pub configured : store.config ≡ some config
  pub allowed : (config.can_mint_after_sale || not (unwrap_or store.sale_conducted true)) ≡ true
  pub known : deps.get_raw_address config.token_address ≡ ok token
  pub listed :
      out.0.available_tokens ≡ put_up (own_tokens env.contract_address ms) store.available_tokens
  pub counted :
      out.0.number_of_tokens_available
      ≡ more (length (own_tokens env.contract_address ms)) store.number_of_tokens_available
  pub same_purchases : out.0.purchases ≡ store.purchases
  pub asked : out.1 ≡ requests env.contract_address token ms
  pub valid : IsValid out.0

module _ (deps : Deps) (env : Env) (info : MessageInfo) (store : Store)
    (ms : List CrowdfundMintMsg) where
  mints :
      IsValid store → WhenOk (Minted deps env info store ms) (execute_mint deps env info store ms)
  unfolding execute_mint
  mints v =
      let Post = Minted deps env info store ms in
      WhenOk-bind Post (deps.nonpayable info.funds) _ λ _ _.
        WhenOk-bind Post (ensure (leb (length ms) max_mint_limit) too_many_mint_messages) _ λ _ few.
          WhenOk-bind Post (is_contract_owner store.ado info.sender) _ λ is_owner owner.
            WhenOk-bind Post (ensure is_owner unauthorized) _ λ _ is_true.
              WhenOk-bind Post (ensure (is_none store.state) sale_started) _ λ _ idle.
                WhenOk-bind Post (or_err store.sale_conducted not_found) _ λ conducted was.
                  WhenOk-bind Post (or_err store.config not_found) _ λ config configured.
                    WhenOk-bind Post
                      (ensure (config.can_mint_after_sale || not conducted)
                        cannot_mint_after_sale_conducted)
                      _
                      λ _ may.
                        WhenOk-bind Post (deps.get_raw_address config.token_address) _
                          λ token known.
                            WhenOk-mono (After env.contract_address token store ms []) Post
                              (λ out all.
                                let stored = or_err-eq-ok store.sale_conducted not_found was in
                                record {
                                  config = config;
                                  token = token;
                                  few =
                                      leb→le (length ms) 100
                                        (ensure-eq-ok _ too_many_mint_messages few);
                                  by_owner = owner ∙ ap ok (ensure-eq-ok _ unauthorized is_true);
                                  no_sale =
                                      is_none-eq store.state (ensure-eq-ok _ sale_started idle);
                                  configured = or_err-eq-ok store.config not_found configured;
                                  allowed =
                                      ap (λ o. config.can_mint_after_sale || not (unwrap_or o true))
                                        stored
                                      ∙ ensure-eq-ok _ cannot_mint_after_sale_conducted may;
                                  known = known;
                                  listed = ap (λ s. s.available_tokens) all.0;
                                  counted = ap (λ s. s.number_of_tokens_available) all.0;
                                  same_purchases = ap (λ s. s.purchases) all.0;
                                  asked = all.1;
                                  valid = rw all.0 (
                                      with_tokens-IsValid (own_tokens env.contract_address ms) store
                                        v);
                                })
                              (mint_all store env.contract_address token ms [])
                              (mint_all-After env.contract_address token store ms [])

  -- Only the owner mints, at most a hundred tokens at once, while no sale is stored, and after a sale
  -- only where the configuration allows it. The token contract is asked for each of the tokens; those
  -- minted to the contract itself, and only those, are put up for sale, and each counts in the stored
  -- number of tokens available. The purchases stay, and so does the invariant.
  pub execute_mint-Minted :
      {out : Store × Response}
      → IsValid store
      → execute_mint deps env info store ms ≡ ok out
      → Minted deps env info store ms out
  execute_mint-Minted v h =
      WhenOk-ok (Minted deps env info store ms) (execute_mint deps env info store ms) (mints v) h
