-- ===== src/Chain/Result.antt =====
-- `Result<T, ContractError>` (packages/std/src/error.rs) with a third outcome, a Rust panic. Either
-- failure makes the chain discard every write of the call, so a failure carries no state.
use flexible_pay_crowdfund_a.Base.{
  ◌≡◌, refl, subst, ◌⊎◌, inl, inr, Bool, true, false, Option, none, some, ℕ,
}

-- The errors that the modelled handlers raise, without their text; `external` is an error that
-- a query, a library call or an address lookup returned.
pub data ContractError : Type 0 where
  unauthorized sale_started cannot_mint_after_sale_conducted : ContractError
  too_many_mint_messages start_time_after_end_time start_time_in_the_past : ContractError
  invalid_expiration_time no_ongoing_sale token_not_available : ContractError
  purchase_limit_reached all_tokens_purchased insufficient_funds : ContractError
  sale_not_ended min_sales_exceeded no_purchases limit_must_not_be_zero : ContractError
  parsing_error overflow not_found invalid_rate : ContractError
  funds_are_locked withdrawal_is_empty invalid_zero_amount : ContractError
  multi_batch_not_supported invalid_funds underflow : ContractError
  auction_does_not_exist auction_cancelled auction_not_started : ContractError
  auction_ended auction_not_ended auction_already_started : ContractError
  auction_already_claimed token_owner_cannot_bid : ContractError
  highest_bidder_cannot_out_bid bid_smaller_than_highest_bid : ContractError
  invalid_asset invalid_expiration no_locked_funds invalid_address : ContractError
  duplicate_coin_denoms expiration_in_past module_not_unique : ContractError
  module_does_not_exist module_immutable : ContractError
  empty_recipients_list reached_recipient_limit amount_exceeds : ContractError
  duplicate_recipient contract_locked exceeds_max_allowed_coins : ContractError
  lock_time_too_short lock_time_too_long account_not_found withdrawal_limit_exceeded : ContractError
  invalid_weight user_not_found : ContractError
  external : ℕ → ContractError

pub data Result {ℓ} (A : Type ℓ) : Type ℓ where
  ok : A → Result A
  err : ContractError → Result A
  panicked : Result A

-- `?`: a failure is returned at once.
infixl 5 ◌>>=◌
abbrev pub ◌>>=◌ {ℓ κ} : {A : Type ℓ} {B : Type κ} → Result A → (A → Result B) → Result B
panicked >>= next = panicked
err e >>= next = err e
ok a >>= next = next a

infixl 5 ◌>>◌
abbrev pub ◌>>◌ {ℓ} : {B : Type ℓ} → Result (Unit {0}) → Result B → Result B
check >> call = check >>= λ _. call

-- `ensure!(c, e)`
abbrev pub ensure : Bool → ContractError → Result (Unit {0})
ensure true e = ok tt
ensure false e = err e

-- `load` of a stored item that may be absent, `o.unwrap()`, and `r.unwrap()`
abbrev pub or_err {ℓ} : {A : Type ℓ} → Option A → ContractError → Result A
or_err none e = err e
or_err (some a) e = ok a

abbrev pub or_panic {ℓ} : {A : Type ℓ} → Result A → Result A
or_panic (ok a) = ok a
or_panic (err e) = panicked
or_panic panicked = panicked

pub ensure-eq-ok : (c : Bool) (e : ContractError) {u : Unit {0}} → ensure c e ≡ ok u → c ≡ true
ensure-eq-ok true e h = refl
ensure-eq-ok false e h = cc

pub or_err-eq-ok {ℓ} :
    {A : Type ℓ} (o : Option A) (e : ContractError) {a : A} → or_err o e ≡ ok a → o ≡ some a
or_err-eq-ok none e h = cc
or_err-eq-ok (some b) e h = cc

pub Result-cases {ℓ} :
    {A : Type ℓ} (r : Result A)
    → ((a : A) × (r ≡ ok a)) ⊎ (((e : ContractError) × (r ≡ err e)) ⊎ (r ≡ panicked))
Result-cases (ok a) = inl (a, refl)
Result-cases (err e) = inr (inl (e, refl))
Result-cases panicked = inr (inr refl)

-- A postcondition of the calls that succeed.
abbrev pub WhenOk {ℓ κ} : {A : Type ℓ} → (A → Type κ) → Result A → Type κ
WhenOk P (ok a) = P a
WhenOk P (err e) = Unit
WhenOk P panicked = Unit

pub WhenOk-ok {ℓ κ} :
    {A : Type ℓ} (P : A → Type κ) (r : Result A) {a : A} → WhenOk P r → r ≡ ok a → P a
WhenOk-ok P (ok b) {a} w h = subst P (cc) w
WhenOk-ok P (err e) w h = cc
WhenOk-ok P panicked w h = cc

pub WhenOk-mono {ℓ κ μ} :
    {A : Type ℓ} (P : A → Type κ) (Q : A → Type μ)
    → ((a : A) → P a → Q a)
    → (r : Result A) → WhenOk P r
    → WhenOk Q r
WhenOk-mono P Q f (ok a) h = f a h
WhenOk-mono P Q f (err e) h = tt
WhenOk-mono P Q f panicked h = tt

-- A bind meets a postcondition if what follows the value does.
pub WhenOk-bind {ℓ κ μ} :
    {A : Type ℓ} {B : Type κ} (P : B → Type μ) (m : Result A) (f : A → Result B)
    → ((a : A) → m ≡ ok a → WhenOk P (f a))
    → WhenOk P (m >>= f)
WhenOk-bind P (ok a) f h = h a refl
WhenOk-bind P (err e) f h = tt
WhenOk-bind P panicked f h = tt

-- What follows from a call's success is a postcondition of it.
pub WhenOk-self {ℓ κ} :
    {A : Type ℓ} {P : A → Type κ} (r : Result A) → ((a : A) → r ≡ ok a → P a) → WhenOk P r
WhenOk-self (ok a) h = h a refl
WhenOk-self (err e) h = tt
WhenOk-self panicked h = tt

pub ok_injective {ℓ} : {A : Type ℓ} {a b : A} → ok a ≡ ok b → a ≡ b
ok_injective e = cc
