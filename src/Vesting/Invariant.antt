-- ===== src/Vesting/Invariant.antt =====
-- The invariant of the vesting contract's storage: every batch is paid by its schedule.
mod Saving
pub mod Handlers
pub mod Creation
mod Listed
pub mod Sweep
use flexible_pay_crowdfund_a.Base.{
  ℕ, zero, suc, ◌+◌, ◌*◌, ◌≤◌, ◌≡◌, ap, refl, sym, ◌∙◌, subst, Option, some, List, [], ◌∷◌, take,
  arith, Bool, ltb, ◌==◌, Bool-cases, inl, inr, if◌then◌else◌, leb,
}
use flexible_pay_crowdfund_a.Chain.Result.{
  Result, ok, err, panicked, WhenOk, WhenOk-ok, WhenOk-bind, or_err, or_err-eq-ok, not_found,
}
use flexible_pay_crowdfund_a.Chain.Dict.{Dict, IsSorted, may_load, save}
use flexible_pay_crowdfund_a.Chain.Deps.{Deps, Env}
use flexible_pay_crowdfund_a.Ado.Withdrawal.{WithdrawalType, get_amount}
use flexible_pay_crowdfund_a.Vesting.State.{Config, Batch, ClaimTime, Store, load_batches}
use flexible_pay_crowdfund_a.Vesting.Claim.{claim_batch}
use flexible_pay_crowdfund_a.Vesting.Schedule.{IsPaid, Claimed, claim-Answers, claim_batch-IsPaid}

abbrev ok_or_zero : Result ℕ → ℕ
ok_or_zero (ok n) = n
ok_or_zero (err e) = 0
ok_or_zero panicked = 0

-- What a batch releases in a period; nothing if its percentage is not one.
abbrev pub per_period : WithdrawalType → ℕ → ℕ
per_period release amount = ok_or_zero (get_amount release amount)

-- After some number of periods, the batch is paid by its schedule.
abbrev pub OnSchedule : Batch → Type 0
OnSchedule b = (k : ℕ) × IsPaid (per_period b.release_amount b.amount) k b

abbrev pub AllOnSchedule : List (ℕ × Batch) → Type 0
AllOnSchedule [] = Unit
AllOnSchedule ((id, b) ∷ d) = OnSchedule b × AllOnSchedule d

pub record IsValid (store : Store) : Type 0 where
  pub sorted : IsSorted store.batches
  pub scheduled : AllOnSchedule store.batches

pub save-AllOnSchedule :
    (id : ℕ) (b : Batch) (d : Dict Batch)
    → OnSchedule b
    → AllOnSchedule d
    → AllOnSchedule (save id b d)
unfolding save
save-AllOnSchedule id b [] h all = (h, tt)
save-AllOnSchedule id b ((j, c) ∷ d) h all = elim (Bool-cases (id == j)) [
  | inl here ↦ rw here (h, all.1)
  | inr there ↦ rw there (elim (Bool-cases (ltb id j)) [
    | inl before ↦ rw before (h, all)
    | inr after ↦ rw after (all.0, save-AllOnSchedule id b d h all.1)
  ])
]

pub may_load-OnSchedule :
    (id : ℕ) (d : Dict Batch) {b : Batch} → AllOnSchedule d → may_load id d ≡ some b → OnSchedule b
may_load-OnSchedule id [] all h = cc
may_load-OnSchedule id ((j, c) ∷ d) {b} all h = elim (Bool-cases (id == j)) [
  | inl here ↦ let same : c ≡ b = ground (arith, h, here) in subst OnSchedule same all.0
  | inr there ↦
      let further : may_load id d ≡ some b = ground (arith, h, there) in
      may_load-OnSchedule id d all.1 further
]

-- What is loaded is on schedule.
pub load_batches-AllOnSchedule :
    (d : Dict Batch) (es : List (ℕ × ClaimTime))
    → AllOnSchedule d
    → WhenOk AllOnSchedule (load_batches d es)
load_batches-AllOnSchedule d [] all = tt
load_batches-AllOnSchedule d ((id, c) ∷ es) all =
    WhenOk-bind AllOnSchedule (or_err (may_load id d) not_found) _ λ b found.
      WhenOk-bind AllOnSchedule (load_batches d es) _ λ bs loaded. (
        may_load-OnSchedule id d all (or_err-eq-ok (may_load id d) not_found found),
        WhenOk-ok AllOnSchedule _ (load_batches-AllOnSchedule d es all) loaded,
      )

-- A claim keeps the schedule.
pub claim_batch-OnSchedule :
    (deps : Deps) (env : Env) (b : Batch) (config : Config) (number_of_claims : Option ℕ)
    {r : ℕ × Batch}
    → OnSchedule b
    → claim_batch deps env b config number_of_claims ≡ ok r
    → OnSchedule r.1
claim_batch-OnSchedule deps env b config number_of_claims {r} (k, paid) h =
    let (per, balance, each, held, c) =
      WhenOk-ok _ (claim_batch deps env b config number_of_claims)
        (claim-Answers deps env b config number_of_claims) h in
    let released : per_period b.release_amount b.amount ≡ per = ap ok_or_zero each in
    let same : per_period b.release_amount b.amount ≡ per_period r.1.release_amount r.1.amount =
      sym (λ i. per_period (c.same_release i) (c.same_amount i)) in
    let (j, paid', _) =
      claim_batch-IsPaid deps env b config number_of_claims each held
        (subst (λ p. IsPaid p k b) released paid) h in
    (k + j, subst (λ p. IsPaid p (k + j) r.1) (sym released ∙ same) paid')
