-- ===== src/Chain/Uint.antt =====
-- `Uint128`, `u64` and `u32` arithmetic. A value is a natural number; each operation states the
-- bound of its width. The release profile has `overflow-checks = true` (Cargo.toml), so `+`, `-` and
-- `*` panic out of range, and the `checked_` forms return an error.
use flexible_pay_crowdfund_a.Base.{ℕ, ◌+◌, ◌-◌, ◌*◌, ◌^◌, ◌≤◌, ◌≡◌, arith, leb, if◌then◌else◌}
use flexible_pay_crowdfund_a.Chain.Result.{Result, ok, err, or_panic, overflow}

abbrev pub u32_max : ℕ
u32_max = 2 ^ 32 - 1

abbrev pub u64_max : ℕ
u64_max = 2 ^ 64 - 1

abbrev pub u128_max : ℕ
u128_max = 2 ^ 128 - 1

abbrev pub checked_add : ℕ → ℕ → ℕ → Result ℕ
checked_add max a b = if leb (a + b) max then ok (a + b) else err overflow

abbrev pub checked_sub : ℕ → ℕ → Result ℕ
checked_sub a b = if leb b a then ok (a - b) else err overflow

abbrev pub checked_mul : ℕ → ℕ → ℕ → Result ℕ
checked_mul max a b = if leb (a * b) max then ok (a * b) else err overflow

abbrev pub add_or_panic : ℕ → ℕ → ℕ → Result ℕ
add_or_panic max a b = or_panic (checked_add max a b)

abbrev pub sub_or_panic : ℕ → ℕ → Result ℕ
sub_or_panic a b = or_panic (checked_sub a b)

abbrev pub mul_or_panic : ℕ → ℕ → ℕ → Result ℕ
mul_or_panic max a b = or_panic (checked_mul max a b)

pub checked_add-eq-ok :
    (max a b : ℕ) {r : ℕ} → checked_add max a b ≡ ok r → (r ≡ a + b) × (a + b ≤ max)
checked_add-eq-ok max a b h = ground arith

pub checked_sub-eq-ok : (a b : ℕ) {r : ℕ} → checked_sub a b ≡ ok r → (r + b ≡ a) × (b ≤ a)
checked_sub-eq-ok a b h = ground arith

pub checked_mul-eq-ok :
    (max a b : ℕ) {r : ℕ} → checked_mul max a b ≡ ok r → (r ≡ a * b) × (a * b ≤ max)
checked_mul-eq-ok max a b h = ground arith
