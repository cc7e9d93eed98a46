-- ===== src/Invariant/Budget.antt =====
-- The budget and the timeout that `poll` of src/LDC1614.cpp computes for its transfers.
use ldc.Base.{ℕ, ◌+◌, ◌≤◌, ◌<◌, ◌≡◌, true, false, arith, Bool-cases, inl, inr}
use ldc.Clock.{sub64}
use ldc.Driver.{Driver}
use ldc.Types.{is_acquire}
use ldc.Poll.{poll_budget, due_or_past}
use ldc.Invariant.{Inv, JobInv}
use ldc.Invariant.Rounds.{transfer_count_bounds}

pub job_bounds :
    (d : Driver)
    → JobInv d
    → d.progress.active ≡ true
    → (d.progress.completed_transfers < d.progress.maximum_transfers)
      × (d.progress.maximum_transfers < 256)
job_bounds d v a = elim (Bool-cases (is_acquire d.progress.kind)) [
  | inl e ↦ ground (arith, v.acquires a e)
  | inr e ↦ ground (arith, v.replays a e, transfer_count_bounds d.config.variant)
]

-- A job is due at its deadline.
due_now :
    (now deadline : ℕ)
    → deadline < 18446744073709551616
    → now < 18446744073709551616
    → due_or_past now deadline ≡ false
    → 0 < sub64 deadline now
unfolding due_or_past
due_now now deadline u t due = ground arith

-- At a job that is active and not due, a poll with a nonzero budget of transfers divides by no
-- zero, and its transfers are at most those that are left of the job's bound. The driver satisfies
-- the invariants of `Invariant`, and the times are uint64_t.
pub poll_budget-bounds :
    (now most : ℕ) (d : Driver)
    → Inv d
    → d.progress.active ≡ true
    → due_or_past now d.progress.deadline_ms ≡ false
    → 0 < most
    → most < 256
    → now < 18446744073709551616
    → d.progress.deadline_ms < 18446744073709551616
    → (0 < poll_budget now most d)
      × (d.progress.completed_transfers + poll_budget now most d ≤ d.progress.maximum_transfers)
unfolding poll_budget
poll_budget-bounds now most d v a due m b t u =
    ground (arith, job_bounds d v.job a, due_now now d.progress.deadline_ms u t due)
