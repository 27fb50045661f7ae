-- ===== src/Tests/Splits.antt =====
-- A splitter with shares of 30 and 50 percent.
use flexible_pay_crowdfund_a.Base.{◌≡◌, ◌*◌, ◌^◌, refl, arith, none, some, [], ◌∷◌}
use flexible_pay_crowdfund_a.Chain.Result.{ok}
use flexible_pay_crowdfund_a.Chain.Outflow.{outflows}
use flexible_pay_crowdfund_a.Chain.Message.{Response, with_ibc_recovery}
use flexible_pay_crowdfund_a.Chain.Deps.{MessageInfo, at_time}
use flexible_pay_crowdfund_a.Ado.Recipient.{
  from_string, generate_amp_msg, generate_direct_msg, validate,
}
use flexible_pay_crowdfund_a.Splitter.State.{
  Splitter, Store, validate_recipients, validate_recipient_list,
}
use flexible_pay_crowdfund_a.Splitter.Handlers.{share, take_shares, split, execute_send}
use flexible_pay_crowdfund_a.Splitter.Send.{Sent, execute_send-Sent}
use flexible_pay_crowdfund_a.Splitter.Total.{execute_send_total}
use flexible_pay_crowdfund_a.WeightedSplitter.Recipients as Weighted
use flexible_pay_crowdfund_a.WeightedSplitter.Handlers
use flexible_pay_crowdfund_a.WeightedSplitter.Send.{execute_send-outflows}
use flexible_pay_crowdfund_a.Tests.{value_or, coin, deps, at_second, ado}

abbrev two_shares : Splitter
two_shares = record {
  recipients =
      record { recipient = from_string 11; percent = 3 * 10 ^ 17 }
      ∷ record { recipient = from_string 12; percent = 5 * 10 ^ 17 }
      ∷ [];
  lock = 0;
}

abbrev store : Store
store = record { ado = ado; splitter = some two_shares }

abbrev payer : MessageInfo
payer = record { sender = 9; funds = coin 1 101 ∷ [] }

abbrev sent : Store × Response
sent = value_or (store, []) (execute_send deps (at_second 10) payer none store)

send_succeeds : execute_send deps (at_second 10) payer none store ≡ ok sent
unfolding execute_send split take_shares share generate_amp_msg with_ibc_recovery
send_succeeds = refl

execute_send-Sent_example :
    (outflows 1 sent.1 ≡ 101) × Sent deps (at_second 10) payer none store sent
execute_send-Sent_example = execute_send-Sent deps (at_second 10) payer none store 1 send_succeeds

valid : validate_recipient_list deps two_shares.recipients ≡ ok tt
unfolding validate_recipient_list validate_recipients validate
valid = refl

execute_send_total_example :
    (out : Store × Response) × (execute_send deps
        (at_second 10)
        (record { sender = 9; funds = coin 1 101 ∷ [] })
        none
        store
      ≡ ok out)
execute_send_total_example =
    execute_send_total deps (λ a. refl) (coin 1 101 ∷ []) (omega arith, tt) (at_second 10) 9 8 none
      store two_shares refl refl valid refl refl (omega arith)

-- The same by weights, 3 to 5.
abbrev weighted : Weighted.Store
weighted = record {
  ado = ado;
  splitter = some (record {
    recipients =
        record { recipient = from_string 11; weight = 3 }
        ∷ record { recipient = from_string 12; weight = 5 }
        ∷ [];
    lock = at_time 0;
  });
}

abbrev sent_by_weight : Weighted.Store × Response
sent_by_weight = value_or (weighted, []) (Handlers.execute_send deps payer weighted)

weighted_succeeds : Handlers.execute_send deps payer weighted ≡ ok sent_by_weight
unfolding Handlers.execute_send Handlers.split Handlers.take_shares Handlers.share
    generate_direct_msg
weighted_succeeds = refl

execute_send-outflows_example : (outflows 1 sent_by_weight.1 ≡ 101) × (sent_by_weight.0 ≡ weighted)
execute_send-outflows_example = execute_send-outflows 1 deps payer weighted weighted_succeeds
