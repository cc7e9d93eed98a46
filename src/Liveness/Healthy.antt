-- ===== src/Liveness/Healthy.antt =====
-- `poll` of src/LDC1614.cpp on a device that answers.
use ldc.Base.{ℕ, ◌+◌, ◌≤◌, ◌≡◌, true, false, arith, if◌then◌else◌, if_cases, subst, sym}
use ldc.Clock.{sub64}
use ldc.Types.{JobKind, TerminalOutcome, AppliedConfigState, is_acquire}
use ldc.Driver.{Driver}
use ldc.Bus.{Bus}
use ldc.Round.Apply.{apply_round}
use ldc.Round.Acquire.{acquire_round}
use ldc.Poll.{
  Polled, run_rounds, machine, poll_acquire, poll_initialize_or_apply, poll, poll_budget,
  poll_timeout, due_or_past, is_reset,
}
use ldc.Poll.Loop.{both_hold, run_rounds_inv, poll-machine}
use ldc.Invariant.{Inv}
use ldc.Invariant.Polls.{
  LoopInv, apply_round-LoopInv, acquire_round-LoopInv, acquire_kind, loop_start,
}
use ldc.Invariant.Owed.{owed, poll-owed}
use ldc.Invariant.Queue.{newest}
use ldc.Liveness.{transfers_left, Answers, Succeeded}
use ldc.Liveness.Ends.{some_left, full_budget, poll-ends}
use ldc.Liveness.Succeeds.{apply_round-Succeeded, acquire_round-Succeeded, differs}

one_more :
    (e d : Driver)
    → d.progress.active ≡ true
    → e.progress.active ≡ false
    → owed e ≡ owed d
    → e.result_count ≡ d.result_count + 1
one_more e d a b o = ground (arith, o)

module _ {W : Type 0} (bus : Bus W) (f : Answers bus) where
  module _ (now timeout n : ℕ) (d : Driver) (w : W) where
    machine-Succeeded :
        d.progress.active ≡ true
        → Inv d
        → Succeeded d.progress.kind (machine bus now n timeout d w).driver
    unfolding machine poll_acquire poll_initialize_or_apply
    machine-Succeeded a v =
        let kind = d.progress.kind in
        if_cases (λ (p : Polled W). Succeeded kind p.driver) (is_acquire kind) _ _
          (λ k.
            let same = acquire_kind bus now timeout kind k in
            subst (λ k. Succeeded k (run_rounds (acquire_round bus now timeout) n d w).driver)
              (sym same)
              (run_rounds_inv (acquire_round bus now timeout)
                (λ e w. LoopInv JobKind.acquire d e × Succeeded JobKind.acquire e)
                (λ e w p b. both_hold _ _ _ (acquire_round-LoopInv bus now timeout d e w p.0 b) (
                  acquire_round-Succeeded bus f now timeout e w b (p.0.same_job b).0 p.0.queue
                    p.0.job))
                n d w
                (subst (λ k. LoopInv k d d) same (loop_start d v), λ e. absurd (differs e a))).1)
          (λ k.
            (run_rounds_inv (apply_round bus kind (is_reset kind) now timeout)
              (λ e w. LoopInv kind d e × Succeeded kind e)
              (λ e w p b.
                both_hold _ _ _ (apply_round-LoopInv bus now timeout kind d e w k p.0 b)
                  (apply_round-Succeeded bus f now timeout e w kind b p.0.queue))
              n d w (loop_start d v, λ e. absurd (differs e a))).1)

  -- On a device that answers every transfer with the identity of an LDC1614, a poll of an active job
  -- that is not due, with at least the transfers that the job has left as its budget and as many
  -- milliseconds before the deadline, ends the job: one more result waits, the newest, with the
  -- outcome SUCCESS, and any job but an acquisition has left the profile applied and the device
  -- asleep. The driver satisfies the invariants of `Invariant`.
  pub poll-succeeds :
      (now most : ℕ) (d : Driver) (w : W)
      → Inv d
      → d.progress.active ≡ true
      → due_or_past now d.progress.deadline_ms ≡ false
      → transfers_left d ≤ most
      → transfers_left d ≤ sub64 d.progress.deadline_ms now
      → let e = (poll bus now most d w).1 in
        (e.progress.active ≡ false)
        × (e.result_count ≡ d.result_count + 1)
        × ((newest e).outcome ≡ TerminalOutcome.success)
        × ((if is_acquire d.progress.kind
              then AppliedConfigState.applied_sleeping
              else e.applied_state)
            ≡ AppliedConfigState.applied_sleeping)
  poll-succeeds now most d w v a early m t =
      let ended = poll-ends bus now most d w v a early m t in
      let budget = full_budget now most d v.job a m t in
      let some = some_left d v.job a in
      let n = poll_budget now most d in
      let run =
        poll-machine bus now most d w a early (omega (arith, some, m))
          (omega (arith, some, budget)) in
      let good : Succeeded d.progress.kind (poll bus now most d w).1 =
        rw run (machine-Succeeded now (poll_timeout now n d) n d w a v) in
      (
        ended,
        one_more (poll bus now most d w).1 d a ended (poll-owed bus now most d w v),
        (good ended).0,
        (good ended).1,
      )
