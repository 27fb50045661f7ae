-- ===== src/Ado/Withdrawal.antt =====
-- `WithdrawalType` (packages/std/src/common/withdraw.rs). A `Decimal` is its number of 10^-18 parts.
use flexible_pay_crowdfund_a.Base.{ℕ, ◌*◌, ◌/◌, ◌^◌, Bool, min, leb, ◌==◌}
use flexible_pay_crowdfund_a.Chain.Result.{Result, ok, ◌>>◌, ensure, invalid_rate}

pub data WithdrawalType : Type 0 where
  amount percentage : ℕ → WithdrawalType

abbrev pub decimal_one : ℕ
decimal_one = 10 ^ 18

-- `balance * percent`, which rounds down
abbrev pub mul_decimal : ℕ → ℕ → ℕ
mul_decimal balance percent = balance * percent / decimal_one

unfoldable pub get_amount : WithdrawalType → ℕ → Result ℕ
get_amount (percentage p) balance = do
  ensure (leb p decimal_one) invalid_rate
  ok (mul_decimal balance p)
get_amount (amount a) balance = ok (min a balance)

unfoldable pub is_zero : WithdrawalType → Bool
is_zero (percentage p) = p == 0
is_zero (amount a) = a == 0
