-- ===== src/Invariant/Owed.antt =====
-- How many results src/LDC1614.cpp owes to its client: those in the queue, and one for an active job.
use ldc.Base.{
  if_cases, ℕ, zero, suc, ◌+◌, ◌≡◌, ◌==◌, ◌∙◌, Bool, true, not, if◌then◌else◌, arith, refl,
}
use ldc.Status.{Status, Err, error}
use ldc.Types.{JobKind, TerminalOutcome, is_acquire}
use ldc.Registers.{advance_acquire_channel}
use ldc.Driver.{Driver, clear_active_job}
use ldc.Bus.{Bus, read_register, write_register, tracked}
use ldc.Jobs.{finish_job, push_result, abandon_writes}
use ldc.Round.{Round, again, done, closed}
use ldc.Round.Apply.{reset_round, identity_round, replay_round, apply_round}
use ldc.Round.Acquire.{
  acquire_round, read_status_before_round, read_data_msb_round, read_data_lsb_round,
  read_status_after_round, invalid_round,
}
use ldc.Round.Ends.{apply_round_cases, acquire_round_cases}
use ldc.Poll.{
  Polled, machine, poll_acquire, poll_initialize_or_apply, poll_loop, poll, poll_budget,
  poll_timeout, due_or_past, is_reset,
}
use ldc.Poll.Loop.{Holds, run_rounds_inv, poll_loop_once}
use ldc.Invariant.{Inv, QueueInv}
use ldc.Invariant.Frame.{failed_write-QueueInv, apply_round-QueueInv, acquire_round-QueueInv}
use ldc.Invariant.Polls.{abandon_writes-Inv}

abbrev pub owed : Driver → ℕ
owed d = d.result_count + (if d.progress.active then 1 else 0)

finish_job-owed :
    (o : TerminalOutcome) (s : Status) (t : ℕ) (d : Driver)
    → d.progress.active ≡ true
    → QueueInv d
    → owed (finish_job o s t d).1 ≡ owed d
unfolding finish_job push_result clear_active_job
finish_job-owed o s t d a v = ground arith

abandon_writes-owed : (s : Status) (d : Driver) → owed (abandon_writes s d) ≡ owed d
unfolding abandon_writes
abandon_writes-owed s d = ground arith

module _ {W : Type 0} (bus : Bus W) (now timeout : ℕ) (d : Driver) (w : W) where
  abbrev KeepsOwed : Round W → Type 0
  KeepsOwed = Holds (λ e w. owed e ≡ owed d)

  apply_round-owed :
      (kind : JobKind) (reset : Bool)
      → d.progress.active ≡ true
      → QueueInv d
      → KeepsOwed (apply_round bus kind reset now timeout d w)
  unfolding reset_round identity_round replay_round write_register read_register tracked
  apply_round-owed kind reset a v =
      apply_round_cases bus KeepsOwed kind reset now timeout d w
        (λ _. grind (arith, failed_write-QueueInv, finish_job-owed))
        (λ _. grind (arith, finish_job-owed))
        (λ _ _. grind (arith, failed_write-QueueInv, finish_job-owed))

  acquire_round-owed :
      d.progress.active ≡ true → QueueInv d → KeepsOwed (acquire_round bus now timeout d w)
  unfolding read_status_before_round read_data_msb_round read_data_lsb_round read_status_after_round
      invalid_round read_register tracked advance_acquire_channel
  acquire_round-owed a v =
      acquire_round_cases bus KeepsOwed now timeout d w (λ _. grind (arith, finish_job-owed))
        (λ _. grind (arith, finish_job-owed)) (λ _. grind (arith, finish_job-owed))
        (λ _. grind (arith, finish_job-owed)) (λ _. grind (arith, finish_job-owed))

module _ {W : Type 0} (bus : Bus W) (now timeout : ℕ) where
  -- Both at once, from the driver `d` where the loop began.
  abbrev KeepsBoth : Driver → Round W → Type 0
  KeepsBoth d = Holds (λ e w. QueueInv e × (owed e ≡ owed d))

  both :
      (d e : Driver) (r : Round W)
      → owed e ≡ owed d
      → Holds (λ g w. QueueInv g) r
      → Holds (λ g w. owed g ≡ owed e) r
      → KeepsBoth d r
  both d e (again g w) o q p = (q, p ∙ o)
  both d e (done s g w) o q p = (q, p ∙ o)
  both d e (closed s g w) o q p = (q, p ∙ o)

  apply_round-Keeps :
      (kind : JobKind) (reset : Bool) (d e : Driver) (w : W)
      → e.progress.active ≡ true
      → QueueInv e × (owed e ≡ owed d)
      → KeepsBoth d (apply_round bus kind reset now timeout e w)
  apply_round-Keeps kind reset d e w a p =
      both d e _ p.1 (apply_round-QueueInv bus now timeout e w kind reset a p.0)
        (apply_round-owed bus now timeout e w kind reset a p.0)

  acquire_round-Keeps :
      (d e : Driver) (w : W)
      → e.progress.active ≡ true
      → QueueInv e × (owed e ≡ owed d)
      → KeepsBoth d (acquire_round bus now timeout e w)
  acquire_round-Keeps d e w a p =
      both d e _ p.1 (acquire_round-QueueInv bus now timeout e w a p.0)
        (acquire_round-owed bus now timeout e w a p.0)

module _ {W : Type 0} (bus : Bus W) where
  machine-owed :
      (now n timeout : ℕ) (d : Driver) (w : W)
      → QueueInv d
      → owed (machine bus now n timeout d w).driver ≡ owed d
  unfolding machine poll_acquire poll_initialize_or_apply
  machine-owed now n timeout d w v =
      let kind = d.progress.kind in
      let Keeps : Driver → W → Type 0 = λ e w. QueueInv e × (owed e ≡ owed d) in
      if_cases (λ (p : Polled W). owed p.driver ≡ owed d) (is_acquire kind) _ _
        (λ _.
          (run_rounds_inv (acquire_round bus now timeout) Keeps
            (λ e w p a. acquire_round-Keeps bus now timeout d e w a p) n d w (v, refl)).1)
        (λ _.
          (run_rounds_inv (apply_round bus kind (is_reset kind) now timeout) Keeps
            (λ e w p a. apply_round-Keeps bus now timeout kind (is_reset kind) d e w a p) n d w
            (v, refl)).1)

  poll_loop-owed :
      (now remaining timeout : ℕ) (d : Driver) (w : W)
      → d.progress.active ≡ true
      → QueueInv d
      → owed (poll_loop bus (suc remaining) now remaining timeout d w).1 ≡ owed d
  unfolding poll_loop
  poll_loop-owed now zero timeout d w a v = simp a refl
  poll_loop-owed now (suc n) timeout d w a v =
      rw (poll_loop_once bus n now (suc n) timeout d w a (omega arith))
        (machine-owed now (suc n) timeout d w v)

  -- A poll leaves the number of results in the queue, with one for an active job, as it is.
  pub poll-owed :
      (now most : ℕ) (d : Driver) (w : W) → Inv d → owed (poll bus now most d w).1 ≡ owed d
  unfolding poll
  poll-owed now most d w v =
      let Keeps : Status × Driver × W → Type 0 = λ p. owed p.1 ≡ owed d in
      let late = error Err.timeout in
      let kept = abandon_writes-Inv late d v in
      if_cases Keeps (not d.progress.active) _ _ (λ _. refl)
        (λ a.
          if_cases Keeps (due_or_past now d.progress.deadline_ms) _ _
            (λ _.
              finish_job-owed TerminalOutcome.timed_out late now (abandon_writes late d)
                (kept.1 ∙ ground (arith, a)) kept.0.queue
              ∙ abandon_writes-owed late d)
            (λ _.
              if_cases Keeps (most == 0) _ _ (λ _. refl)
                (λ _.
                  poll_loop-owed now (poll_budget now most d)
                    (poll_timeout now (poll_budget now most d) d) d w (ground (arith, a)) v.queue)))
