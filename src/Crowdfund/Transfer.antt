-- ===== src/Crowdfund/Transfer.antt =====
-- A round of a sale that met its minimum: `transfer_tokens_and_send_funds` of
-- contracts/non-fungible-tokens/flexi-crowdfund/src/contract.rs, in the parts that follow one
-- another in the source.
pub mod Blocks
pub mod Cut
pub mod Removal
pub mod Rest
pub mod Looped
pub mod Trim
pub mod Progress
pub mod Total
use flexible_pay_crowdfund_a.Base.{
  ℕ, ◌+◌, Bool, not, ◌&&◌, ◌||◌, Option, none, some, List, [], ◌∷◌, ◌++◌, take, drop, length,
  is_empty, ltb, leb, ◌==◌, if◌then◌else◌,
}
use flexible_pay_crowdfund_a.Chain.Result.{
  Result, ok, panicked, ◌>>=◌, ◌>>◌, ensure, or_err, or_panic, not_found, limit_must_not_be_zero,
}
use flexible_pay_crowdfund_a.Chain.Uint.{u128_max, checked_add}
use flexible_pay_crowdfund_a.Chain.Coin.{Coin}
use flexible_pay_crowdfund_a.Chain.Dict.{Dict, may_load, has, remove, save}
use flexible_pay_crowdfund_a.Chain.Message.{
  CosmosMsg, SubMsg, wasm_execute, transfer_nft, AmpPkt, new_pkt, add_message, to_sub_msg, Response,
  add_messages,
}
use flexible_pay_crowdfund_a.Chain.Merge.{merge_sub_msgs}
use flexible_pay_crowdfund_a.Chain.Deps.{Deps, Env, MessageInfo}
use flexible_pay_crowdfund_a.Ado.Base.{Ado, get_kernel_address}
use flexible_pay_crowdfund_a.Ado.Recipient.{generate_direct_msg, generate_amp_msg}
use flexible_pay_crowdfund_a.Crowdfund.State.{Store, State, Purchase}
use flexible_pay_crowdfund_a.Crowdfund.Refund.{operations, get_burn_messages, clear_state}

abbrev pub pkt_or_new : Option AmpPkt → MessageInfo → Env → AmpPkt
pkt_or_new (some pkt) info env = pkt
pkt_or_new none info env = new_pkt info.sender env.contract_address []

-- The message that sends the raised funds: direct, or as a packet through the kernel.
unfoldable pub funds_message : Deps → Ado → State → AmpPkt → Result SubMsg
funds_message deps ado state pkt =
    let funds : List Coin =
      record { denom = state.price.denom; amount = state.amount_to_send } ∷ [] in
    let direct = generate_direct_msg deps state.recipient funds in
    let through_kernel : Result SubMsg = (do
      amp_message ← or_panic (generate_amp_msg deps state.recipient funds)
      kernel_address ← get_kernel_address ado
      ok (to_sub_msg (add_message pkt amp_message) kernel_address funds 1)) in
    elim state.recipient.msg [ none ↦ direct | some _ ↦ through_kernel ]

-- The funds are sent once: what is to be sent is then zero.
unfoldable pub send_funds : Deps → Store → State → AmpPkt → Result (Store × Response)
unfolding funds_message
send_funds deps store state pkt =
    let sending = (do
      m ← funds_message deps store.ado state pkt
      ok (record store { state = some (record state { amount_to_send = 0 }) }, m ∷ [])) in
    if ltb 0 state.amount_to_send then sending else ok (store, [])

-- Every purchase is transferred: send the funds, and burn what was not sold. With nothing left to
-- burn the sale is over.
unfoldable pub finish_sale : Deps → Env → Store → State → AmpPkt → ℕ → Result (Store × Response)
unfolding send_funds
finish_sale deps env store state pkt limit = do
  (sent, resp) ← send_funds deps store state pkt
  (burn_msgs, burned) ← get_burn_messages deps sent env.contract_address limit
  if is_empty burn_msgs
      then ok (clear_state burned, resp)
      else ok (burned, add_messages resp burn_msgs)

-- All purchases, in the order of the purchasers' keys.
abbrev pub flat : Dict (List Purchase) → List Purchase
flat [] = []
flat ((k, ps) ∷ d) = ps ++ flat d

-- The purchasers that decide whether the last entry is removed: `purchases[len - 2]`, or
-- `purchases[0]` of one, and `purchases[len - 1]`. Without any purchase the index panics.
unfoldable pub last_purchasers : List Purchase → Result (ℕ × ℕ)
last_purchasers [] = panicked
last_purchasers (p ∷ []) = ok (p.purchaser, p.purchaser)
last_purchasers (p ∷ q ∷ []) = ok (p.purchaser, q.purchaser)
last_purchasers (p ∷ q ∷ r ∷ ps) = last_purchasers (q ∷ r ∷ ps)

-- The variables of the loop over the purchases.
pub record Round : Type 0 where
  pub purchases : Dict (List Purchase)
  pub number_of_last_purchases_removed : ℕ
  pub rate_messages : List SubMsg
  pub transfer_msgs : List CosmosMsg
  pub amount_transferred : ℕ

abbrev pub transfer_msg : ℕ → Purchase → CosmosMsg
transfer_msg token_contract p = wasm_execute token_contract (transfer_nft p.purchaser p.token_id) []

-- The part of one round that removes entries and counts.
unfoldable pub remove_purchaser : ℕ → Bool → ℕ → Dict (List Purchase) × ℕ → Dict (List Purchase) × ℕ
remove_purchaser last_purchaser remove_last purchaser (purchases, removed) =
    if (not (purchaser == last_purchaser) || remove_last) && has purchaser purchases
    then (remove purchaser purchases, removed)
    else if purchaser == last_purchaser
    then (purchases, removed + 1)
    else (purchases, removed)

unfoldable pub transfer_purchase : ℕ → Bool → ℕ → Purchase → Round → Result Round
unfolding remove_purchaser
transfer_purchase last_purchaser remove_last token_contract p r = do
  let (purchases, removed) =
      remove_purchaser last_purchaser remove_last p.purchaser
        (r.purchases, r.number_of_last_purchases_removed)
  amount_transferred ← checked_add u128_max r.amount_transferred 1
  ok (record {
    purchases = purchases;
    number_of_last_purchases_removed = removed;
    rate_messages = r.rate_messages ++ p.msgs;
    transfer_msgs = r.transfer_msgs ++ transfer_msg token_contract p ∷ [];
    amount_transferred = amount_transferred;
  })

unfoldable pub transfer_loop : ℕ → Bool → ℕ → List Purchase → Round → Result Round
unfolding transfer_purchase
transfer_loop last_purchaser remove_last token_contract [] r = ok r
transfer_loop last_purchaser remove_last token_contract (p ∷ ps) r = do
  r' ← transfer_purchase last_purchaser remove_last token_contract p r
  transfer_loop last_purchaser remove_last token_contract ps r'

-- `xs[n..]`
abbrev pub slice_from {ℓ} : {A : Type ℓ} → ℕ → List A → Result (List A)
slice_from n xs = if leb n (length xs) then ok (drop n xs) else panicked

-- If the last purchaser was not removed, the processed part of its purchases is.
unfoldable pub trim_last : ℕ → ℕ → Dict (List Purchase) → Result (Dict (List Purchase))
trim_last last_purchaser removed purchases = elim (may_load last_purchaser purchases) [
  | none ↦ ok purchases
  | some last_purchases ↦
      slice_from removed last_purchases >>= λ rest. ok (save last_purchaser rest purchases)
]

-- One purchase more than the limit is read, to see whether the last purchaser is done; it is dropped
-- again.
abbrev pub without_extra : ℕ → List Purchase → List Purchase
without_extra limit purchases =
    if limit + 1 == length purchases then take limit purchases else purchases

unfoldable pub transfer_tokens : Deps → Store → State → ℕ → Result (Store × Response)
unfolding transfer_loop trim_last last_purchasers
transfer_tokens deps store state limit = do
  let purchases = take (limit + 1) (flat store.purchases)
  config ← or_err store.config not_found
  (last_purchaser, subsequent) ← last_purchasers purchases
  let remove_last_purchaser = not (last_purchaser == subsequent)
  token_contract_address ← deps.get_raw_address config.token_address
  let start : Round = record {
    purchases = store.purchases;
    number_of_last_purchases_removed = 0;
    rate_messages = [];
    transfer_msgs = [];
    amount_transferred = state.amount_transferred;
  }
  r ←
      transfer_loop last_purchaser remove_last_purchaser token_contract_address
        (without_extra limit purchases) start
  left ← trim_last last_purchaser r.number_of_last_purchases_removed r.purchases
  rates ← merge_sub_msgs r.rate_messages
  ok (
    record store {
      purchases = left;
      state = some (record state { amount_transferred = r.amount_transferred });
    },
    add_messages [] r.transfer_msgs ++ rates,
  )

unfoldable pub transfer_tokens_and_send_funds :
    Deps → Env → MessageInfo → Option AmpPkt → Store → Option ℕ → Result (Store × Response)
unfolding finish_sale transfer_tokens
transfer_tokens_and_send_funds deps env info amp_ctx store limit = do
  state ← or_err store.state not_found
  ensure (ltb 0 (operations limit)) limit_must_not_be_zero
  if state.amount_transferred == state.amount_sold
      then finish_sale deps env store state (pkt_or_new amp_ctx info env) (operations limit)
      else transfer_tokens deps store state (operations limit)
