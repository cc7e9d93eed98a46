-- ===== src/Poll/Bounds.antt =====
-- What one call of `poll` in src/LDC1614.cpp may cost: its callbacks, and the sum of their timeouts.
use ldc.Base.{ℕ, zero, suc, ◌+◌, ◌*◌, ◌≤◌, ◌≡◌, true, arith, Bool-cases, inl, inr}
use ldc.Types.{is_acquire}
use ldc.Clock.{sub64}
use ldc.Driver.{Driver}
use ldc.Bus.{Bus}
use ldc.Round.Apply.{apply_round}
use ldc.Round.Acquire.{acquire_round}
use ldc.Round.Cost.{Charges, apply_round-Costs, acquire_round-Costs}
use ldc.Poll.{
  machine, poll_acquire, poll_initialize_or_apply, poll_loop, poll, poll_budget, poll_timeout,
  is_reset,
}
use ldc.Poll.Loop.{run_rounds_cost, poll_loop_once}

module _ {W : Type 0} (bus : Bus W) (cost : W → ℕ) where
  machine_cost :
      (k now remaining timeout : ℕ) (d : Driver) (w : W)
      → Charges bus cost timeout k
      → cost (machine bus now remaining timeout d w).world ≤ cost w + remaining * k
  unfolding machine poll_acquire poll_initialize_or_apply
  machine_cost k now remaining timeout d w c = elim (Bool-cases (is_acquire d.progress.kind)) [
    | inl e ↦ rw e (
        omega (
          arith,
          run_rounds_cost (acquire_round bus now timeout) cost k
              (acquire_round-Costs bus cost timeout k c now) remaining d w,
        ))
    | inr e ↦ rw e (
        omega (
          arith,
          run_rounds_cost (apply_round bus d.progress.kind (is_reset d.progress.kind) now timeout)
              cost k
              (apply_round-Costs bus cost timeout k c d.progress.kind (is_reset d.progress.kind)
                now)
              remaining d w,
        ))
  ]

  poll_loop_cost :
      (k now remaining timeout : ℕ) (d : Driver) (w : W)
      → Charges bus cost timeout k
      → d.progress.active ≡ true
      → cost (poll_loop bus (suc remaining) now remaining timeout d w).2 ≤ cost w + remaining * k
  unfolding poll_loop
  poll_loop_cost k now zero timeout d w c a = ground arith
  poll_loop_cost k now (suc r) timeout d w c a =
      rw (poll_loop_once bus r now (suc r) timeout d w a (omega arith))
        (machine_cost k now (suc r) timeout d w c)

  -- The transfers of a poll are bounded by its budget, at the cost of one transfer.
  poll_cost :
      (k now most : ℕ) (d : Driver) (w : W)
      → Charges bus cost (poll_timeout now (poll_budget now most d) d) k
      → cost (poll bus now most d w).2 ≤ cost w + poll_budget now most d * k
  unfolding poll
  poll_cost k now most d w c = elim (Bool-cases d.progress.active) [
    | inl e ↦ ground (
      arith,
      poll_loop_cost k now (poll_budget now most d) (poll_timeout now (poll_budget now most d) d) d
          w c e,
    )
    | inr e ↦ rw e (omega arith)
  ]

poll_budget-le : (now most : ℕ) (d : Driver) → poll_budget now most d ≤ most
unfolding poll_budget
poll_budget-le now most d = ground arith

poll_timeouts_fit :
    (now most : ℕ) (d : Driver)
    → poll_budget now most d * poll_timeout now (poll_budget now most d) d
      ≤ sub64 d.progress.deadline_ms now
unfolding poll_timeout
poll_timeouts_fit now most d = grind arith

module _ {W : Type 0} (bus : Bus W) where
  -- If every callback raises the count `calls` by at most one, `poll` raises it by at most
  -- `max_transfers`.
  pub poll_transfers :
      (calls : W → ℕ) (now max_transfers : ℕ) (d : Driver) (w : W)
      → ((timeout : ℕ) → Charges bus calls timeout 1)
      → calls (poll bus now max_transfers d w).2 ≤ calls w + max_transfers
  poll_transfers calls now most d w c =
      omega (arith, poll_cost bus calls 1 now most d w (c _), poll_budget-le now most d)

  -- If every callback takes at most the timeout that it is given, `poll` takes at most the time
  -- that was left before the deadline of the job when it began, in uint64_t.
  pub poll_time :
      (elapsed : W → ℕ) (now max_transfers : ℕ) (d : Driver) (w : W)
      → ((timeout : ℕ) → Charges bus elapsed timeout timeout)
      → elapsed (poll bus now max_transfers d w).2 ≤ elapsed w + sub64 d.progress.deadline_ms now
  poll_time elapsed now most d w c = omega (
    arith,
    poll_cost bus elapsed (poll_timeout now (poll_budget now most d) d) now most d w (c _),
    poll_timeouts_fit now most d,
  )
