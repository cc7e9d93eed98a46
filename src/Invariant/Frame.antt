-- ===== src/Invariant/Frame.antt =====
-- The rounds of src/LDC1614.cpp and the queue, the counters and the binding.
use ldc.Base.{ℕ, ◌≡◌, ◌∙◌, Bool, true, arith}
use ldc.Status.{Status}
use ldc.Config.{Channel}
use ldc.Types.{AppliedConfigState, JobKind, JobPhase, TerminalOutcome}
use ldc.Driver.{Driver, clear_active_job}
use ldc.Bus.{Bus, read_register, write_register, tracked}
use ldc.Jobs.{finish_job, push_result}
use ldc.Round.{Round}
use ldc.Round.Apply.{reset_round, identity_round, replay_round, apply_round, failed_write}
use ldc.Round.Acquire.{
  acquire_round, read_status_before_round, read_data_msb_round, read_data_lsb_round,
  read_status_after_round, invalid_round,
}
use ldc.Round.Ends.{apply_round_cases, acquire_round_cases}
use ldc.Poll.Loop.{Holds}
use ldc.Invariant.{QueueInv, StatsInv}

-- Ending a job uses the slot that its admission reserved.
pub finish_job-QueueInv :
    (o : TerminalOutcome) (s : Status) (t : ℕ) (d : Driver)
    → d.progress.active ≡ true
    → QueueInv d
    → QueueInv (finish_job o s t d).1
unfolding finish_job push_result clear_active_job
finish_job-QueueInv o s t d a v = ground arith

-- A failed write leaves the queue, and the job active.
pub failed_write-QueueInv :
    (s : Status) (p : JobPhase) (reg : ℕ) (c : Channel) (a : AppliedConfigState) (d : Driver)
    → ((failed_write s p reg c a d).result_head ≡ d.result_head)
      × ((failed_write s p reg c a d).result_count ≡ d.result_count)
      × ((failed_write s p reg c a d).progress.active ≡ d.progress.active)
unfolding failed_write
failed_write-QueueInv s p reg c a d = ground arith

-- What a job cannot change: the binding, the profile and its revision.
pub record SameBinding (d d' : Driver) : Type 0 where
  pub same_bound : d'.bound ≡ d.bound
  pub same_config : d'.config ≡ d.config
  pub same_revision : d'.config_revision ≡ d.config_revision

pub finish_job-SameBinding :
    (o : TerminalOutcome) (s : Status) (t : ℕ) (d : Driver) → SameBinding d (finish_job o s t d).1
unfolding finish_job push_result clear_active_job
finish_job-SameBinding o s t d = ground arith

failed_write-SameBinding :
    (s : Status) (p : JobPhase) (reg : ℕ) (c : Channel) (a : AppliedConfigState) (d : Driver)
    → SameBinding d (failed_write s p reg c a d)
unfolding failed_write
failed_write-SameBinding s p reg c a d = ground arith

pub SameBinding-trans : {d e f : Driver} → SameBinding d e → SameBinding e f → SameBinding d f
SameBinding-trans p q = record {
  same_bound = q.same_bound ∙ p.same_bound;
  same_config = q.same_config ∙ p.same_config;
  same_revision = q.same_revision ∙ p.same_revision;
}

-- Counting a transfer keeps the counters together: the attempts are the successes and the failures,
-- and all three stop at UINT32_MAX.
pub tracked-StatsInv : (s : Status) (d : Driver) → StatsInv d → StatsInv (tracked s d)
unfolding tracked
tracked-StatsInv s d v = ground arith

module _ {W : Type 0} (bus : Bus W) (now timeout : ℕ) (d : Driver) (w : W) where
  abbrev KeepsQueue : Round W → Type 0
  KeepsQueue = Holds (λ d' w'. QueueInv d')

  pub apply_round-QueueInv :
      (kind : JobKind) (reset : Bool)
      → d.progress.active ≡ true
      → QueueInv d
      → KeepsQueue (apply_round bus kind reset now timeout d w)
  unfolding reset_round identity_round replay_round write_register read_register tracked
  apply_round-QueueInv kind reset a v =
      apply_round_cases bus KeepsQueue kind reset now timeout d w
        (λ _. grind (arith, failed_write-QueueInv, finish_job-QueueInv))
        (λ _. grind (arith, finish_job-QueueInv))
        (λ _ _. grind (arith, failed_write-QueueInv, finish_job-QueueInv))

  pub acquire_round-QueueInv :
      d.progress.active ≡ true → QueueInv d → KeepsQueue (acquire_round bus now timeout d w)
  unfolding read_status_before_round read_data_msb_round read_data_lsb_round read_status_after_round
      invalid_round read_register tracked
  acquire_round-QueueInv a v =
      acquire_round_cases bus KeepsQueue now timeout d w (λ _. grind (arith, finish_job-QueueInv))
        (λ _. grind (arith, finish_job-QueueInv)) (λ _. grind (arith, finish_job-QueueInv))
        (λ _. grind (arith, finish_job-QueueInv)) (λ _. grind (arith, finish_job-QueueInv))

  abbrev KeepsBinding : Round W → Type 0
  KeepsBinding = Holds (λ d' w'. SameBinding d d')

  pub apply_round-SameBinding :
      (kind : JobKind) (reset : Bool) → KeepsBinding (apply_round bus kind reset now timeout d w)
  unfolding reset_round identity_round replay_round write_register read_register tracked
  apply_round-SameBinding kind reset =
      apply_round_cases bus KeepsBinding kind reset now timeout d w
        (λ _. grind (arith, failed_write-SameBinding, finish_job-SameBinding))
        (λ _. grind (arith, finish_job-SameBinding))
        (λ _ _. grind (arith, failed_write-SameBinding, finish_job-SameBinding))

  pub acquire_round-SameBinding : KeepsBinding (acquire_round bus now timeout d w)
  unfolding read_status_before_round read_data_msb_round read_data_lsb_round read_status_after_round
      invalid_round read_register tracked
  acquire_round-SameBinding =
      acquire_round_cases bus KeepsBinding now timeout d w
        (λ _. grind (arith, finish_job-SameBinding)) (λ _. grind (arith, finish_job-SameBinding))
        (λ _. grind (arith, finish_job-SameBinding)) (λ _. grind (arith, finish_job-SameBinding))
        (λ _. grind (arith, finish_job-SameBinding))
