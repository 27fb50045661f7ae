-- ===== src/Chain/Outflow.antt =====
-- The native coins that the messages of a response take out of a contract.
use flexible_pay_crowdfund_a.Base.{
  ℕ, ◌+◌, ◌≡◌, refl, List, [], ◌∷◌, ◌++◌, arith, Option-cases, inl, inr,
}
use flexible_pay_crowdfund_a.Chain.Result.{ok, WhenOk-ok, WhenOk-bind}
use flexible_pay_crowdfund_a.Chain.Coin.{Coin}
use flexible_pay_crowdfund_a.Chain.Deps.{Deps}
use flexible_pay_crowdfund_a.Ado.Recipient.{Recipient, generate_direct_msg}
use flexible_pay_crowdfund_a.Chain.Coin.Totals.{amount_of}
use flexible_pay_crowdfund_a.Chain.Message.{
  SubMsg, CosmosMsg, bank_send, wasm_execute, staking, distribution, gov_vote, other, Response,
}

-- What a message takes out of the contract.
abbrev pub outflow : ℕ → CosmosMsg → ℕ
outflow d (bank_send a coins) = amount_of d coins
outflow d (wasm_execute a m coins) = amount_of d coins
outflow d (staking m) = 0
outflow d (distribution m) = 0
outflow d (gov_vote p v) = 0
outflow d (other m) = 0

abbrev pub outflows : ℕ → Response → ℕ
outflows d [] = 0
outflows d (m ∷ ms) = outflow d m.msg + outflows d ms

pub outflows-append : (d : ℕ) (r s : Response) → outflows d (r ++ s) ≡ outflows d r + outflows d s
outflows-append d [] s = omega arith
outflows-append d (m ∷ r) s = ground (arith, outflows-append d r s)

pub generate_direct_msg-outflow :
    (deps : Deps) (d : ℕ) (r : Recipient) (coins : List Coin) {msg : SubMsg}
    → generate_direct_msg deps r coins ≡ ok msg
    → outflow d msg.msg ≡ amount_of d coins
unfolding generate_direct_msg
generate_direct_msg-outflow deps d r coins h =
    WhenOk-ok (λ msg. outflow d msg.msg ≡ amount_of d coins) (generate_direct_msg deps r coins)
      (WhenOk-bind _ (deps.get_raw_address r.address) _
        λ a _. elim (Option-cases r.msg) [ inl e ↦ rw e refl | inr (m, e) ↦ rw e refl ])
      h
