-- ===== src/Poll/Loop.antt =====
-- Rules for the loops of `poll` in src/LDC1614.cpp: an invariant rule for the rounds, what a loop
-- leaves, and `poll` in terms of one run of a state machine.
use ldc.Base.{
  ◌==◌, false, ℕ, zero, suc, ◌+◌, ◌*◌, ◌≤◌, ◌<◌, ◌≡◌, refl, true, ◌&&◌, not, if◌then◌else◌, inl,
  inr, arith, Bool-cases,
}
use ldc.Status.{Status, is_ok, is_in_progress, ok_status}
use ldc.Driver.{Driver}
use ldc.Bus.{Bus}
use ldc.Types.{is_acquire}
use ldc.Round.{Round, again, done, closed}
use ldc.Round.Apply.{apply_round}
use ldc.Round.Acquire.{acquire_round}
use ldc.Round.Ends.{EndsIdle, apply_round-EndsIdle, acquire_round-EndsIdle}
use ldc.Round.Cost.{Costs}
use ldc.Poll.{
  Polled, in_progress, after_round, run_rounds, is_reset, poll_initialize_or_apply, poll_acquire,
  poll_loop, machine, poll, poll_budget, poll_timeout, due_or_past,
}

-- `P` holds of the state that a round leaves.
abbrev pub Holds : {W : Type 0} → (Driver → W → Type 0) → Round W → Type 0
Holds P (again d w) = P d w
Holds P (done s d w) = P d w
Holds P (closed s d w) = P d w

module _ {W : Type 0} where
  pub both_hold :
      (P Q : Driver → W → Type 0) (r : Round W)
      → Holds P r
      → Holds Q r
      → Holds (λ d w. P d w × Q d w) r
  both_hold P Q (again d w) p q = (p, q)
  both_hold P Q (done s d w) p q = (p, q)
  both_hold P Q (closed s d w) p q = (p, q)

  after_round_inv :
      (P : Driver → W → Type 0) (rest : Driver → W → Polled W) (n : ℕ)
      → ((d : Driver) (w : W) → P d w → P (rest d w).driver (rest d w).world)
      → (r : Round W) → Holds P r
      → P (after_round rest n r).driver (after_round rest n r).world
  after_round_inv P rest n keep (again d w) h = keep d w h
  after_round_inv P rest n keep (done s d w) h = h
  after_round_inv P rest n keep (closed s d w) h = h

  after_round_cost :
      (cost : W → ℕ) (k n c : ℕ) (rest : Driver → W → Polled W)
      → ((d : Driver) (w : W) → cost (rest d w).world + (rest d w).remaining * k ≤ cost w + n * k)
      → (r : Round W) (before : W) → Costs cost k before r
      → cost before ≤ c
      → cost (after_round rest n r).world + (after_round rest n r).remaining * k ≤ c + suc n * k
  after_round_cost cost k n c rest keep (again d w) before h b = grind (arith, keep d w)
  after_round_cost cost k n c rest keep (done s d w) before h b = grind arith
  after_round_cost cost k n c rest keep (closed s d w) before h b = grind arith

  after_round_exit :
      (n : ℕ) (rest : Driver → W → Polled W)
      → ((d : Driver) (w : W) → (rest d w).driver.progress.active ≡ true → (rest d w).remaining ≡ 0)
      → (r : Round W) → EndsIdle r
      → (after_round rest n r).driver.progress.active ≡ true
      → (after_round rest n r).remaining ≡ 0
  after_round_exit n rest keep (again d w) h a = keep d w a
  after_round_exit n rest keep (done s d w) h a = cc
  after_round_exit n rest keep (closed s d w) h a = cc

module _ {W : Type 0} (round : Driver → W → Round W) where
  pub run_rounds_inv :
      (P : Driver → W → Type 0)
      → ((d : Driver) (w : W) → P d w → d.progress.active ≡ true → Holds P (round d w))
      → (n : ℕ) (d : Driver) (w : W) → P d w
      → P (run_rounds round n d w).driver (run_rounds round n d w).world
  unfolding run_rounds
  run_rounds_inv P keep zero d w h = h
  run_rounds_inv P keep (suc n) d w h = elim (Bool-cases d.progress.active) [
    | inl e ↦
        rw (e, run_rounds)
          (after_round_inv P (run_rounds round n) n (run_rounds_inv P keep n) (round d w)
            (keep d w h e))
    | inr e ↦ rw (e, run_rounds) h
  ]

  -- Every transfer is paid for by one that remained.
  pub run_rounds_cost :
      (cost : W → ℕ) (k : ℕ)
      → ((d : Driver) (w : W) → Costs cost k w (round d w))
      → (n : ℕ) (d : Driver) (w : W)
      → cost (run_rounds round n d w).world + (run_rounds round n d w).remaining * k
        ≤ cost w + n * k
  unfolding run_rounds
  run_rounds_cost cost k paid zero d w = omega arith
  run_rounds_cost cost k paid (suc n) d w = elim (Bool-cases d.progress.active) [
    | inl e ↦
        rw (e, run_rounds)
          (after_round_cost cost k n (cost w) (run_rounds round n) (run_rounds_cost cost k paid n)
            (round d w) w (paid d w) (omega arith))
    | inr e ↦ rw (e, run_rounds) (omega arith)
  ]

  -- The loop ends by its own test: the job is over, or no transfer remains.
  pub run_rounds_exit :
      ((d : Driver) (w : W) → EndsIdle (round d w))
      → (n : ℕ) (d : Driver) (w : W) → (run_rounds round n d w).driver.progress.active ≡ true
      → (run_rounds round n d w).remaining ≡ 0
  unfolding run_rounds
  run_rounds_exit idle zero d w = λ a. refl
  run_rounds_exit idle (suc n) d w = elim (Bool-cases d.progress.active) [
    | inl e ↦
        rw (e, run_rounds)
          (after_round_exit n (run_rounds round n) (run_rounds_exit idle n) (round d w) (idle d w))
    | inr e ↦ rw (e, run_rounds) (λ a. cc)
  ]

-- The status of a poll that a state machine has run for. One that returns Err::IN_PROGRESS goes on to
-- the next test of the loop, also where it is the code of the failure that has ended the job.
abbrev pub polled_status : {W : Type 0} → Polled W → Status
polled_status p =
    if not (is_ok p.status) && not (is_in_progress p.status)
    then p.status
    else if p.driver.progress.active
    then in_progress
    else ok_status

module _ {W : Type 0} (bus : Bus W) where
  pub machine_exit :
      (now remaining timeout : ℕ) (d : Driver) (w : W)
      → (machine bus now remaining timeout d w).driver.progress.active ≡ true
      → (machine bus now remaining timeout d w).remaining ≡ 0
  unfolding machine poll_acquire poll_initialize_or_apply
  machine_exit now remaining timeout d w = elim (Bool-cases (is_acquire d.progress.kind)) [
    | inl e ↦ rw e (
        run_rounds_exit (acquire_round bus now timeout) (acquire_round-EndsIdle bus now timeout)
          remaining d w)
    | inr e ↦ rw e (
        run_rounds_exit (apply_round bus d.progress.kind (is_reset d.progress.kind) now timeout)
          (apply_round-EndsIdle bus d.progress.kind (is_reset d.progress.kind) now timeout)
          remaining d w)
  ]

  poll_loop_over :
      (fuel now remaining timeout : ℕ) (d : Driver) (w : W)
      → (d.progress.active ≡ true → remaining ≡ 0)
      → poll_loop bus (suc fuel) now remaining timeout d w
        ≡ (if d.progress.active then in_progress else ok_status, d, w)
  unfolding poll_loop
  poll_loop_over fuel now remaining timeout d w h = elim (Bool-cases d.progress.active) [
    | inl e ↦ rw (e, h e)
    | inr e ↦ rw e
  ]

  -- While a job is active and transfers remain, the loop of `poll` on at least two rounds of fuel is
  -- one run of the job's state machine, and returns its `polled_status`.
  pub poll_loop_once :
      (fuel now remaining timeout : ℕ) (d : Driver) (w : W)
      → d.progress.active ≡ true
      → 0 < remaining
      → let p = machine bus now remaining timeout d w in
        poll_loop bus (suc (suc fuel)) now remaining timeout d w
        ≡ (polled_status p, p.driver, p.world)
  unfolding poll_loop
  poll_loop_once fuel now remaining timeout d w a r = ground (
    arith,
    poll_loop_over fuel now (machine bus now remaining timeout d w).remaining timeout
        (machine bus now remaining timeout d w).driver (machine bus now remaining timeout d w).world
        (machine_exit now remaining timeout d w),
  )

  loop_enough :
      (now remaining timeout : ℕ) (d : Driver) (w : W)
      → d.progress.active ≡ true
      → 0 < remaining
      → let p = machine bus now remaining timeout d w in
        poll_loop bus (suc remaining) now remaining timeout d w
        ≡ (polled_status p, p.driver, p.world)
  loop_enough now zero timeout d w a r = absurd (omega arith)
  loop_enough now (suc n) timeout d w a r = poll_loop_once n now (suc n) timeout d w a r

  -- A poll of an active job that is not due, with a budget, is one run of the state machine.
  pub poll-machine :
      (now most : ℕ) (d : Driver) (w : W)
      → d.progress.active ≡ true
      → due_or_past now d.progress.deadline_ms ≡ false
      → 0 < most
      → 0 < poll_budget now most d
      → let n = poll_budget now most d in
        let p = machine bus now n (poll_timeout now n d) d w in
        poll bus now most d w ≡ (polled_status p, p.driver, p.world)
  unfolding poll
  poll-machine now most d w a early m b =
      let n = poll_budget now most d in
      let some : (most == 0) ≡ false = ground arith in
      simp (a, early, some) (loop_enough now n (poll_timeout now n d) d w a b)
