-- ===== src/Chain/Time.antt =====
-- Milliseconds and start times: packages/std/src/common/milliseconds.rs and expiration.rs.
use flexible_pay_crowdfund_a.Base.{
  ℕ, Bool, ◌*◌, ◌/◌, ◌≤◌, ◌<◌, ◌≡◌, arith, Option, none, some, leb, ltb, if◌then◌else◌, ◌⊎◌,
}
use flexible_pay_crowdfund_a.Chain.Result.{
  Result, ok, err, panicked, ◌>>=◌, ◌>>◌, ensure, invalid_expiration_time, start_time_in_the_past,
}
use flexible_pay_crowdfund_a.Chain.Uint.{u64_max, add_or_panic, mul_or_panic, sub_or_panic}
use flexible_pay_crowdfund_a.Chain.Deps.{
  BlockInfo, Expiration, at_height, at_time, never, Env, Deps,
}

abbrev pub milliseconds_to_nanoseconds_ratio : ℕ
milliseconds_to_nanoseconds_ratio = 1000000

-- `Timestamp::seconds`
abbrev pub seconds : ℕ → ℕ
seconds t = t / 1000000000

-- `Milliseconds::is_in_past`
unfoldable pub is_in_past : ℕ → BlockInfo → Bool
is_in_past t block = ltb t (seconds block.time * 1000)

-- `Milliseconds::is_expired`, `from_seconds`, `seconds`, `plus_milliseconds`
unfoldable pub has_passed : ℕ → BlockInfo → Bool
has_passed t block = leb t (seconds block.time * 1000)

abbrev pub from_seconds : ℕ → Result ℕ
from_seconds n = if ltb (u64_max / 1000) n then panicked else mul_or_panic u64_max n 1000

abbrev pub to_seconds : ℕ → ℕ
to_seconds t = t / 1000

abbrev pub plus_milliseconds : ℕ → ℕ → Result ℕ
plus_milliseconds t u = add_or_panic u64_max t u

-- `Milliseconds::minus_seconds`
abbrev pub minus_seconds : ℕ → ℕ → Result ℕ
minus_seconds t s = mul_or_panic u64_max s 1000 >>= λ u. sub_or_panic t u

unfoldable pub from_nanos : ℕ → ℕ
from_nanos n = n / 1000000

unfoldable pub nanos : ℕ → Result ℕ
nanos ms = if ltb (u64_max / 1000000) ms then panicked else mul_or_panic u64_max ms 1000000

unfoldable pub expiration_from_milliseconds : ℕ → Result Expiration
unfolding nanos
expiration_from_milliseconds time = do
  ensure (leb time (u64_max / milliseconds_to_nanoseconds_ratio)) invalid_expiration_time
  t ← nanos time
  ok (at_time t)

unfoldable pub block_to_expiration : BlockInfo → Expiration → Option Expiration
block_to_expiration block (at_time t) = some (at_time block.time)
block_to_expiration block (at_height h) = some (at_height block.height)
block_to_expiration block never = none

unfoldable pub get_and_validate_start_time : Deps → Env → Option ℕ → Result (Expiration × ℕ)
unfolding from_nanos expiration_from_milliseconds block_to_expiration
get_and_validate_start_time deps env start_time = do
  let current_time = from_nanos env.block.time
  start_expiration ← elim start_time [
    | some t ↦ expiration_from_milliseconds t
    | none ↦ add_or_panic u64_max current_time 1 >>= λ t. expiration_from_milliseconds t
  ]
  block_time ← elim (block_to_expiration env.block start_expiration) [
    | some e ↦ ok e
    | none ↦ panicked
  ]
  ensure (deps.later start_expiration block_time) start_time_in_the_past
  ok (start_expiration, current_time)

-- A time in milliseconds is converted exactly, or refused: the check in front of the conversion
-- leaves its panic no room.
pub expiration_from_milliseconds_exact :
    (time : ℕ)
    → ((time * 1000000 ≤ u64_max)
        × (expiration_from_milliseconds time ≡ ok (at_time (time * 1000000))))
      ⊎ ((u64_max < time * 1000000)
          × (expiration_from_milliseconds time ≡ err invalid_expiration_time))
unfolding expiration_from_milliseconds
expiration_from_milliseconds_exact time = ground arith
