-- ===== src/Vesting/Invariant/Saving.antt =====
-- Writing a batch that is on schedule.
use flexible_pay_crowdfund_a.Base.{ℕ}
use flexible_pay_crowdfund_a.Chain.Dict.{Dict, IsSorted, save, save-IsSorted}
use flexible_pay_crowdfund_a.Vesting.State.{Batch}
use flexible_pay_crowdfund_a.Vesting.Invariant.{OnSchedule, AllOnSchedule, save-AllOnSchedule}

-- The batches alone.
pub record AreValid (d : Dict Batch) : Type 0 where
  pub sorted : IsSorted d
  pub scheduled : AllOnSchedule d

pub save-AreValid :
    (id : ℕ) (b : Batch) (d : Dict Batch) → OnSchedule b → AreValid d → AreValid (save id b d)
save-AreValid id b d h v = record {
  sorted = save-IsSorted id b d v.sorted;
  scheduled = save-AllOnSchedule id b d h v.scheduled;
}
