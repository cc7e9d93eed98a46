-- ===== src/Liveness/Ends.antt =====
-- The end of a job of src/LDC1614.cpp, counted in the transfers that it has left.
use ldc.Base.{
  ℕ, zero, suc, ◌≤◌, ◌<◌, ◌≡◌, true, false, arith, Bool-cases, inl, inr, if_cases, subst,
}
use ldc.Clock.{sub64}
use ldc.Types.{JobKind, is_acquire}
use ldc.Driver.{Driver}
use ldc.Bus.{Bus}
use ldc.Round.{Round, again, done, closed}
use ldc.Round.Apply.{apply_round}
use ldc.Round.Acquire.{acquire_round}
use ldc.Round.Ends.{EndsIdle, apply_round-EndsIdle, acquire_round-EndsIdle}
use ldc.Poll.{
  Polled, run_rounds, after_round, machine, poll_acquire, poll_initialize_or_apply, poll,
  poll_budget, poll_timeout, due_or_past, is_reset,
}
use ldc.Poll.Loop.{Holds, poll-machine}
use ldc.Invariant.{Inv, JobInv}
use ldc.Invariant.Polls.{
  LoopInv, apply_round-LoopInv, acquire_round-LoopInv, acquire_kind, loop_start,
}
use ldc.Invariant.Budget.{job_bounds}
use ldc.Liveness.{transfers_left}
use ldc.Liveness.Counts.{CountsOne, apply_round-CountsOne, acquire_round-CountsOne}

module _ {W : Type 0} where
  after_round-ends :
      (I : Driver → Type 0) (rest : Driver → W → Polled W) (n : ℕ) (d : Driver)
      → ((e : Driver) (w : W)
          → I e
          → transfers_left e ≤ n
          → (rest e w).driver.progress.active ≡ false)
      → (r : Round W) → Holds (λ e w. I e) r
      → EndsIdle r
      → CountsOne d r
      → transfers_left d ≤ suc n
      → (after_round rest n r).driver.progress.active ≡ false
  after_round-ends I rest n d ends (again e w) i q c h = ends e w i (omega (arith, c.0, c.1, h))
  after_round-ends I rest n d ends (done s e w) i q c h = q
  after_round-ends I rest n d ends (closed s e w) i q c h = q

  -- A loop with the transfers that its job has left ends the job.
  run_rounds-ends :
      (I : Driver → Type 0) (round : Driver → W → Round W)
      → ((e : Driver) → I e → e.progress.active ≡ true → 0 < transfers_left e)
      → ((e : Driver) (w : W) → I e → e.progress.active ≡ true → Holds (λ g w. I g) (round e w))
      → ((e : Driver) (w : W) → EndsIdle (round e w))
      → ((e : Driver) (w : W) → I e → e.progress.active ≡ true → CountsOne e (round e w))
      → (n : ℕ) (d : Driver) (w : W) → I d
      → transfers_left d ≤ n
      → (run_rounds round n d w).driver.progress.active ≡ false
  unfolding run_rounds
  run_rounds-ends I round some_left keep idle counts zero d w i h =
      elim (Bool-cases d.progress.active) [
        | inl e ↦ absurd (omega (arith, some_left d i e, h))
        | inr e ↦ e
      ]
  run_rounds-ends I round some_left keep idle counts (suc n) d w i h =
      elim (Bool-cases d.progress.active) [
        | inl e ↦
            rw (e, run_rounds)
              (after_round-ends I (run_rounds round n) n d
                (run_rounds-ends I round some_left keep idle counts n) (round d w) (keep d w i e)
                (idle d w) (counts d w i e) h)
        | inr e ↦ rw (e, run_rounds) e
      ]

pub some_left : (e : Driver) → JobInv e → e.progress.active ≡ true → 0 < transfers_left e
some_left e v a = omega (arith, job_bounds e v a)

small : (e : Driver) → JobInv e → e.progress.active ≡ true → e.progress.completed_transfers < 255
small e v a = omega (arith, job_bounds e v a)

module _ {W : Type 0} (bus : Bus W) (now timeout n : ℕ) (d : Driver) (w : W) where
  machine-ends :
      Inv d → transfers_left d ≤ n → (machine bus now n timeout d w).driver.progress.active ≡ false
  unfolding machine poll_acquire poll_initialize_or_apply
  machine-ends v h =
      let kind = d.progress.kind in
      if_cases (λ (p : Polled W). p.driver.progress.active ≡ false) (is_acquire kind) _ _
        (λ k.
          run_rounds-ends (LoopInv JobKind.acquire d) (acquire_round bus now timeout)
            (λ e l. some_left e l.job) (λ e w l a. acquire_round-LoopInv bus now timeout d e w l a)
            (acquire_round-EndsIdle bus now timeout)
            (λ e w l a. acquire_round-CountsOne bus now timeout e w (small e l.job a)) n d w
            (subst (λ k. LoopInv k d d) (acquire_kind bus now timeout kind k) (loop_start d v)) h)
        (λ k.
          run_rounds-ends (LoopInv kind d) (apply_round bus kind (is_reset kind) now timeout)
            (λ e l. some_left e l.job)
            (λ e w l a. apply_round-LoopInv bus now timeout kind d e w k l a)
            (apply_round-EndsIdle bus kind (is_reset kind) now timeout)
            (λ e w l a.
              apply_round-CountsOne bus now timeout e w kind (is_reset kind) (small e l.job a))
            n d w (loop_start d v) h)

-- With room in its own budget and in the time, a poll may make all the transfers left.
pub full_budget :
    (now most : ℕ) (d : Driver)
    → JobInv d
    → d.progress.active ≡ true
    → transfers_left d ≤ most
    → transfers_left d ≤ sub64 d.progress.deadline_ms now
    → poll_budget now most d ≡ transfers_left d
unfolding poll_budget
full_budget now most d v a m t = ground (arith, job_bounds d v a, m, t)

module _ {W : Type 0} (bus : Bus W) where
  -- A poll of an active job that is not due, with at least the transfers that the job has left as
  -- its budget and as many milliseconds before the deadline, ends the job, whatever the callbacks
  -- do. The driver satisfies the invariants of `Invariant`.
  pub poll-ends :
      (now most : ℕ) (d : Driver) (w : W)
      → Inv d
      → d.progress.active ≡ true
      → due_or_past now d.progress.deadline_ms ≡ false
      → transfers_left d ≤ most
      → transfers_left d ≤ sub64 d.progress.deadline_ms now
      → (poll bus now most d w).1.progress.active ≡ false
  poll-ends now most d w v a early m t =
      let b = full_budget now most d v.job a m t in
      let some = some_left d v.job a in
      rw (poll-machine bus now most d w a early (omega (arith, some, m)) (omega (arith, some, b))) (
        machine-ends bus now (poll_timeout now (poll_budget now most d) d) (poll_budget now most d)
          d w v (omega (arith, b)))
