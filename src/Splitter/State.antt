-- ===== src/Splitter/State.antt =====
-- The configuration of a splitter and its check: packages/andromeda-finance/src/splitter.rs.
use flexible_pay_crowdfund_a.Base.{
  ℕ, Bool, false, not, ◌||◌, Option, List, [], ◌∷◌, is_empty, length, leb, ◌==◌,
}
use flexible_pay_crowdfund_a.Chain.Result.{
  Result, ok, ◌>>=◌, ◌>>◌, ensure, empty_recipients_list, reached_recipient_limit, amount_exceeds,
  duplicate_recipient,
}
use flexible_pay_crowdfund_a.Chain.Uint.{u128_max, checked_add}
use flexible_pay_crowdfund_a.Chain.Deps.{Deps}
use flexible_pay_crowdfund_a.Ado.Base.{Ado}
use flexible_pay_crowdfund_a.Ado.Recipient.{Recipient, validate}
use flexible_pay_crowdfund_a.Ado.Withdrawal.{decimal_one}

-- The percentage is a `Decimal`, as its number of 10^-18 parts.
pub record AddressPercent : Type 0 where
  pub recipient : Recipient
  pub percent : ℕ

-- The lock is in milliseconds.
pub record Splitter : Type 0 where
  pub recipients : List AddressPercent
  pub lock : ℕ

pub record Store : Type 0 where
  pub ado : Ado
  pub splitter : Option Splitter

-- Membership in the set of addresses met so far.
abbrev pub contains : List ℕ → ℕ → Bool
contains [] a = false
contains (x ∷ xs) a = x == a || contains xs a

-- The loop over the recipients.
unfoldable pub validate_recipients : Deps → List AddressPercent → ℕ → List ℕ → Result (Unit {0})
validate_recipients deps [] percent_sum met = ok tt
validate_recipients deps (rec ∷ recs) percent_sum met = do
  validate deps rec.recipient
  percent_sum' ← checked_add u128_max percent_sum rec.percent
  ensure (leb percent_sum' decimal_one) amount_exceeds
  recipient_address ← deps.get_raw_address rec.recipient.address
  ensure (not (contains met recipient_address)) duplicate_recipient
  validate_recipients deps recs percent_sum' (recipient_address ∷ met)

unfoldable pub validate_recipient_list : Deps → List AddressPercent → Result (Unit {0})
unfolding validate_recipients
validate_recipient_list deps recipients = do
  ensure (not (is_empty recipients)) empty_recipients_list
  ensure (leb (length recipients) 100) reached_recipient_limit
  validate_recipients deps recipients 0 []
