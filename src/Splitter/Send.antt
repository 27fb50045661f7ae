-- ===== src/Splitter/Send.antt =====
-- Sending funds through a splitter: everything goes out, to each recipient its share, and a valid
-- list of recipients never makes it fail.
use mathlib.Core.List.{append-nil, append_assoc}
use flexible_pay_crowdfund_a.Base.{
  ℕ, ◌+◌, ◌≡◌, refl, ap, ◌∙◌, sym, not, Option, none, some, List, [], ◌∷◌, ◌++◌, arith, is_empty,
  length, ltb,
}
use flexible_pay_crowdfund_a.Chain.Result.{
  ok, WhenOk, WhenOk-mono, WhenOk-ok, WhenOk-bind, ensure, or_err, or_err-eq-ok, not_found,
  invalid_funds, exceeds_max_allowed_coins,
}
use flexible_pay_crowdfund_a.Chain.Coin.{Coin}
use flexible_pay_crowdfund_a.Chain.Coin.Totals.{amount_of}
use flexible_pay_crowdfund_a.Chain.Message.{
  AmpMsg, AmpPkt, from_ctx, add_message, to_sub_msg, Response,
}
use flexible_pay_crowdfund_a.Chain.Outflow.{outflows, outflows-append}
use flexible_pay_crowdfund_a.Chain.Deps.{Deps, Env, MessageInfo}
use flexible_pay_crowdfund_a.Ado.Base.{get_kernel_address}
use flexible_pay_crowdfund_a.Ado.Recipient.{generate_amp_msg}
use flexible_pay_crowdfund_a.Splitter.State.{AddressPercent, Splitter, Store}
use flexible_pay_crowdfund_a.Splitter.Handlers.{
  Split, take_shares, split, all_nonzero, positive, give_back, execute_send,
}
use flexible_pay_crowdfund_a.Splitter.Shares.{
  shares, all_shares, SameDenoms, SameDenoms-self, take_shares-Taken,
}

amount_of-append :
    (d : ℕ) (cs ds : List Coin) → amount_of d (cs ++ ds) ≡ amount_of d cs + amount_of d ds
amount_of-append d [] ds = omega arith
amount_of-append d (c ∷ cs) ds = ground (arith, amount_of-append d cs ds)

pub amount_of-positive : (d : ℕ) (cs : List Coin) → amount_of d (positive cs) ≡ amount_of d cs
amount_of-positive d [] = refl
amount_of-positive d (c ∷ cs) = ground (arith, amount_of-positive d cs)

-- One message for each recipient, with the recipient's shares of the funds.
abbrev pub Packed : Deps → List Coin → List AddressPercent → List AmpMsg → Type 0
Packed deps funds [] [] = Unit
Packed deps funds [] (m ∷ ms) = ⊥
Packed deps funds (rec ∷ recs) [] = ⊥
Packed deps funds (rec ∷ recs) (m ∷ ms) =
    (generate_amp_msg deps rec.recipient (shares rec.percent funds) ≡ ok m)
    × Packed deps funds recs ms

-- A packet with other messages.
abbrev pub with_messages : List AmpMsg → AmpPkt → AmpPkt
with_messages ms pkt = record pkt { messages = ms }

module _ (deps : Deps) (d : ℕ) (funds : List Coin) where
  record Splits (recs : List AddressPercent) (before after : Split) : Type 0 where
    balanced :
        amount_of d after.remainder + amount_of d after.amp_funds
        ≡ amount_of d before.remainder + amount_of d before.amp_funds
    kept_shares : after.amp_funds ≡ before.amp_funds ++ all_shares funds recs
    messages : List AmpMsg
    packed : Packed deps funds recs messages
    in_packet : after.pkt ≡ with_messages (before.pkt.messages ++ messages) before.pkt

  splits :
      (recs : List AddressPercent) (before : Split)
      → SameDenoms funds before.remainder
      → WhenOk (Splits recs before) (split deps funds recs before)
  unfolding split
  splits [] before h = record {
    balanced = refl;
    kept_shares = sym (append-nil before.amp_funds);
    messages = [];
    packed = tt;
    in_packet =
        ap (λ ms. record { messages = ms; ctx = before.pkt.ctx })
          (sym (append-nil before.pkt.messages));
  }
  splits (rec ∷ recs) before h =
      let After = Splits (rec ∷ recs) before in
      WhenOk-bind After (take_shares rec.percent funds before.remainder) _ λ taken e.
        WhenOk-bind After (generate_amp_msg deps rec.recipient taken.0) _ λ m f.
          let t = take_shares-Taken d rec.percent funds before.remainder h e in
          let next : Split = record {
            remainder = taken.1;
            amp_funds = before.amp_funds ++ taken.0;
            pkt = add_message before.pkt m;
          } in
          WhenOk-mono (Splits recs next) After
            (λ after s.
              let moved = t.balanced in
              let later = s.balanced in
              let sum = amount_of-append d before.amp_funds taken.0 in
              record {
                balanced = omega (arith, moved, later, sum);
                kept_shares =
                    s.kept_shares
                    ∙ append_assoc before.amp_funds taken.0 (all_shares funds recs)
                    ∙ ap (λ mine. before.amp_funds ++ (mine ++ all_shares funds recs)) t.of_all;
                messages = m ∷ s.messages;
                packed = (ap (generate_amp_msg deps rec.recipient) (sym t.of_all) ∙ f, s.packed);
                in_packet =
                    s.in_packet
                    ∙ ap (λ ms. record { messages = ms; ctx = before.pkt.ctx })
                        (append_assoc before.pkt.messages (m ∷ []) s.messages);
              })
            (split deps funds recs next) (splits recs next t.same_denoms)

pub give_back-outflows :
    (d sender : ℕ) (cs : List Coin) → outflows d (give_back sender cs) ≡ amount_of d cs
give_back-outflows d sender [] = refl
give_back-outflows d sender (c ∷ cs) = omega arith

-- What a successful `Send` answers: in every denomination, the sender gets back what the shares of
-- the recipients leave of the funds; the last message takes to the kernel all the shares and a packet
-- with one message for each recipient.
pub record Sent (deps : Deps) (env : Env) (info : MessageInfo) (amp_ctx : Option AmpPkt)
    (store : Store) (out : Store × Response) : Type 0 where
  pub splitter : Splitter
  pub remainder : List Coin
  pub messages : List AmpMsg
  pub kernel_address : ℕ
  pub configured : store.splitter ≡ some splitter
  pub by_kernel : get_kernel_address store.ado ≡ ok kernel_address
  pub rest :
      (d : ℕ)
      → amount_of d remainder + amount_of d (all_shares info.funds splitter.recipients)
        ≡ amount_of d info.funds
  pub packed : Packed deps info.funds splitter.recipients messages
  pub answered :
      out.1
      ≡ give_back info.sender remainder
        ++ to_sub_msg
            (with_messages messages (from_ctx amp_ctx env.contract_address))
            kernel_address
            (all_shares info.funds splitter.recipients)
            1
          ∷ []
  pub unchanged : out.0 ≡ store

from_ctx-messages : (amp_ctx : Option AmpPkt) (a : ℕ) → (from_ctx amp_ctx a).messages ≡ []
from_ctx-messages none a = refl
from_ctx-messages (some pkt) a = refl

module _ (deps : Deps) (env : Env) (info : MessageInfo) (amp_ctx : Option AmpPkt)
    (store : Store) where
  -- Sending sends out exactly what came in, in every denomination: the kernel gets the shares of all
  -- recipients, each the recipient's percentage of every coin, rounded down, with one message for
  -- each recipient that names its share, and the sender gets back the rest. Nothing is written.
  pub execute_send-Sent :
      (d : ℕ) {out : Store × Response}
      → execute_send deps env info amp_ctx store ≡ ok out
      → (outflows d out.1 ≡ amount_of d info.funds) × Sent deps env info amp_ctx store out
  unfolding execute_send
  execute_send-Sent d h =
      let After : Store × Response → Type 0 =
        λ out. (outflows d out.1 ≡ amount_of d info.funds) × Sent deps env info amp_ctx store out in
      let start : Split = record {
        remainder = info.funds;
        amp_funds = [];
        pkt = from_ctx amp_ctx env.contract_address;
      } in
      WhenOk-ok After (execute_send deps env info amp_ctx store)
        (WhenOk-bind After (ensure (not (is_empty info.funds)) invalid_funds) _ λ _ _.
          WhenOk-bind After (all_nonzero info.funds) _ λ _ _.
            WhenOk-bind After (or_err store.splitter not_found) _ λ splitter found.
              WhenOk-bind After (ensure (ltb (length info.funds) 5) exceeds_max_allowed_coins) _
                λ _ _. WhenOk-bind After (split deps info.funds splitter.recipients start) _ λ s e.
                  WhenOk-bind After (get_kernel_address store.ado) _ λ kernel of_kernel.
                    let at = λ (d : ℕ).
                      WhenOk-ok _ (split deps info.funds splitter.recipients start)
                        (splits deps d info.funds splitter.recipients start
                          (SameDenoms-self info.funds))
                        e in
                    let p = at d in
                    let rest = positive s.remainder in
                    let all = p.balanced in
                    let nothing = amount_of-positive d s.remainder in
                    let back = give_back-outflows d info.sender rest in
                    let sent : Response = to_sub_msg s.pkt kernel s.amp_funds 1 ∷ [] in
                    let both = outflows-append d (give_back info.sender rest) sent in
                    let pkt : s.pkt ≡ with_messages p.messages start.pkt =
                      p.in_packet
                      ∙ ap (λ ms. with_messages (ms ++ p.messages) start.pkt)
                          (from_ctx-messages amp_ctx env.contract_address) in
                    (
                      omega (arith, all, nothing, back, both),
                      record {
                        splitter = splitter;
                        remainder = rest;
                        messages = p.messages;
                        kernel_address = kernel;
                        configured = or_err-eq-ok store.splitter not_found found;
                        by_kernel = of_kernel;
                        rest = λ d.
                            let all = (at d).balanced in
                            let nothing = amount_of-positive d s.remainder in
                            let funds = ap (amount_of d) p.kept_shares in
                            omega (arith, all, nothing, funds);
                        packed = p.packed;
                        answered = λ i.
                            give_back info.sender rest
                            ++ to_sub_msg (pkt i) kernel (p.kept_shares i) 1 ∷ [];
                        unchanged = refl;
                      },
                    ))
        h
