-- ===== src/Splitter/Total.antt =====
-- A splitter with a valid list of recipients never fails to send.
use flexible_pay_crowdfund_a.Base.{
  ℕ, ◌+◌, ◌≤◌, ◌<◌, ◌≡◌, refl, true, false, not, Option, some, List, [], ◌∷◌, ◌++◌, arith, is_empty,
  length, ltb, leb, leb→le,
}
use flexible_pay_crowdfund_a.Chain.Result.{
  ok, WhenOk, WhenOk-mono, WhenOk-ok, WhenOk-bind, ensure, ensure-eq-ok, amount_exceeds,
  duplicate_recipient, empty_recipients_list, reached_recipient_limit,
}
use flexible_pay_crowdfund_a.Chain.Uint.{u128_max, checked_add, checked_add-eq-ok}
use flexible_pay_crowdfund_a.Chain.Coin.{Coin}
use flexible_pay_crowdfund_a.Chain.Message.{
  AmpMsg, AmpPkt, from_ctx, add_message, to_sub_msg, Response,
}
use flexible_pay_crowdfund_a.Chain.Deps.{Deps, Env}
use flexible_pay_crowdfund_a.Ado.Recipient.{Recipient, generate_amp_msg, validate}
use flexible_pay_crowdfund_a.Ado.Withdrawal.{decimal_one}
use flexible_pay_crowdfund_a.Splitter.State.{
  AddressPercent, Splitter, Store, contains, validate_recipients, validate_recipient_list,
}
use flexible_pay_crowdfund_a.Splitter.Handlers.{
  Split, split, positive, give_back, all_nonzero, execute_send,
}
use flexible_pay_crowdfund_a.Splitter.Shares.{Covers, Covers-self, AllSmall, take_shares_total}

-- The sum of the percentages.
abbrev pub percents : List AddressPercent → ℕ
percents [] = 0
percents (rec ∷ recs) = rec.percent + percents recs

validated-percents :
    (deps : Deps) (recs : List AddressPercent) (sum : ℕ) (met : List ℕ)
    → sum ≤ decimal_one
    → WhenOk (λ _. sum + percents recs ≤ decimal_one) (validate_recipients deps recs sum met)
unfolding validate_recipients
validated-percents deps [] sum met h = omega (arith, h)
validated-percents deps (rec ∷ recs) sum met h =
    let After : Unit {0} → Type 0 = λ _. sum + (rec.percent + percents recs) ≤ decimal_one in
    WhenOk-bind After (validate deps rec.recipient) _ λ _ _.
      WhenOk-bind After (checked_add u128_max sum rec.percent) _ λ sum' e.
        WhenOk-bind After (ensure (leb sum' decimal_one) amount_exceeds) _ λ _ f.
          WhenOk-bind After (deps.get_raw_address rec.recipient.address) _ λ a _.
            WhenOk-bind After (ensure (not (contains met a)) duplicate_recipient) _ λ _ _.
              let (added, _) = checked_add-eq-ok u128_max sum rec.percent e in
              let small = leb→le sum' decimal_one (ensure-eq-ok _ amount_exceeds f) in
              WhenOk-mono _ After (λ _ k. omega (arith, added, k))
                (validate_recipients deps recs sum' (a ∷ met))
                (validated-percents deps recs sum' (a ∷ met) small)

-- A list of recipients that is validated shares out at most the whole.
pub validate_recipient_list-percents :
    (deps : Deps) (recs : List AddressPercent)
    → validate_recipient_list deps recs ≡ ok tt
    → percents recs ≤ decimal_one
unfolding validate_recipient_list
validate_recipient_list-percents deps recs h =
    let After : Unit {0} → Type 0 = λ _. percents recs ≤ decimal_one in
    WhenOk-ok After (validate_recipient_list deps recs)
      (WhenOk-bind After (ensure (not (is_empty recs)) empty_recipients_list) _ λ _ _.
        WhenOk-bind After (ensure (leb (length recs) 100) reached_recipient_limit) _ λ _ _.
          WhenOk-mono _ After (λ _ k. omega (arith, k)) (validate_recipients deps recs 0 [])
            (validated-percents deps recs 0 [] (omega arith)))
      h

module _ (deps : Deps) (no_local : (a : ℕ) → deps.is_local_path a ≡ false) (funds : List Coin)
    (small : AllSmall funds) where
  addressed :
      (r : Recipient) (coins : List Coin) → (m : AmpMsg) × (generate_amp_msg deps r coins ≡ ok m)
  unfolding generate_amp_msg
  addressed r coins = rw (no_local r.address) (_, refl)

  split_total :
      (recs : List AddressPercent) (used : ℕ) (acc : Split)
      → used + percents recs ≤ decimal_one
      → Covers used funds acc.remainder
      → (out : Split) × (split deps funds recs acc ≡ ok out)
  unfolding split
  split_total [] used acc h v = (acc, refl)
  split_total (rec ∷ recs) used acc h v =
      let (taken, runs, left) =
        take_shares_total used rec.percent funds acc.remainder (omega (arith, h)) small v in
      let (m, sent) = addressed rec.recipient taken.0 in
      let (out, rest) =
        split_total recs (used + rec.percent)
          (record {
            remainder = taken.1;
            amp_funds = acc.amp_funds ++ taken.0;
            pkt = add_message acc.pkt m;
          })
          (omega (arith, h)) left in
      (out, rw (runs, sent) rest)

  -- With a stored splitter whose list of recipients is valid and whose addresses are not paths to be
  -- looked up, sending between one and four coins, none of them zero, succeeds: the shares never add
  -- up to more than there is.
  pub execute_send_total :
      (env : Env) (sender kernel : ℕ) (amp_ctx : Option AmpPkt) (store : Store)
      (splitter : Splitter)
      → store.splitter ≡ some splitter
      → store.ado.kernel_address ≡ some kernel
      → validate_recipient_list deps splitter.recipients ≡ ok tt
      → is_empty funds ≡ false
      → all_nonzero funds ≡ ok tt
      → length funds < 5
      → (out : Store × Response) × (execute_send deps env
            (record { sender = sender; funds = funds })
            amp_ctx
            store
          ≡ ok out)
  unfolding execute_send
  execute_send_total env sender kernel amp_ctx store splitter stored base valid some_funds nonzero
        few =
      let under : ltb (length funds) 5 ≡ true = ground arith in
      let sum = validate_recipient_list-percents deps splitter.recipients valid in
      let (out, runs) =
        split_total splitter.recipients 0
          (record {
            remainder = funds;
            amp_funds = [];
            pkt = from_ctx amp_ctx env.contract_address;
          })
          (omega (arith, sum)) (Covers-self funds) in
      (
        (
          store,
          give_back sender (positive out.remainder)
              ++ to_sub_msg out.pkt kernel out.amp_funds 1 ∷ [],
        ),
        rw (some_funds, nonzero, stored, under, runs, base) refl,
      )
