-- ===== src/Round/Ends.antt =====
-- src/LDC1614.cpp: how a round ends, and which round an iteration is.
use ldc.Base.{
  ℕ, ◌-◌, ◌≡◌, refl, Bool, true, false, ◌&&◌, ◌==◌, ◌!=◌, leb, ltb, arith, Bool-cases, inl, inr, u8,
}
use ldc.Types.{JobKind}
use ldc.Driver.{Driver, clear_active_job}
use ldc.Bus.{Bus}
use ldc.Jobs.{finish_job}
use ldc.Round.{Round, again, done, closed}
use ldc.Round.Apply.{reset_round, identity_round, replay_round, apply_round, apply_offset}
use ldc.Round.Acquire.{
  AcquirePhase, status_before, data_msb, data_lsb, status_after, invalid, acquire_phase,
  acquire_round, read_status_before_round, read_data_msb_round, read_data_lsb_round,
  read_status_after_round, invalid_round,
}

-- A returning round leaves no active job.
abbrev pub EndsIdle : {W : Type 0} → Round W → Type 0
EndsIdle (again d w) = Unit {0}
EndsIdle (done s d w) = d.progress.active ≡ false
EndsIdle (closed s d w) = d.progress.active ≡ false

module _ {W : Type 0} (bus : Bus W) where
  -- An iteration of the apply loop is one of three rounds, with the test that chose it.
  pub apply_round_cases {ℓ} :
      (P : Round W → Type ℓ) (kind : JobKind) (reset : Bool) (now timeout : ℕ) (d : Driver) (w : W)
      → ((reset && d.job_step == 0) ≡ true → P (reset_round bus now timeout d w))
      → ((apply_offset kind reset != 0
              && leb (apply_offset kind reset - 2) d.job_step
              && ltb d.job_step (apply_offset kind reset))
            ≡ true
          → P (
              identity_round bus now timeout (u8 (d.job_step - (apply_offset kind reset - 2))) d w))
      → ((reset && d.job_step == 0) ≡ false
          → (apply_offset kind reset != 0
              && leb (apply_offset kind reset - 2) d.job_step
              && ltb d.job_step (apply_offset kind reset))
            ≡ false
          → P (replay_round bus now timeout (u8 (d.job_step - apply_offset kind reset)) d w))
      → P (apply_round bus kind reset now timeout d w)
  unfolding apply_round
  apply_round_cases P kind reset now timeout d w on_reset on_identity on_replay =
      elim (Bool-cases (reset && d.job_step == 0)) [
        | inl e ↦ rw e (on_reset e)
        | inr e ↦
            rw e
              (elim (Bool-cases (
                apply_offset kind reset != 0
                && leb (apply_offset kind reset - 2) d.job_step
                && ltb d.job_step (apply_offset kind reset))) [
                  | inl i ↦ rw i (on_identity i)
                  | inr i ↦ rw i (on_replay e i)
                ])
      ]

  -- An iteration of the acquisition loop is one of five rounds.
  pub acquire_round_cases {ℓ} :
      (P : Round W → Type ℓ) (now timeout : ℕ) (d : Driver) (w : W)
      → (acquire_phase d.progress.phase ≡ status_before
          → P (read_status_before_round bus now timeout d w))
      → (acquire_phase d.progress.phase ≡ data_msb → P (read_data_msb_round bus now timeout d w))
      → (acquire_phase d.progress.phase ≡ data_lsb → P (read_data_lsb_round bus now timeout d w))
      → (acquire_phase d.progress.phase ≡ status_after
          → P (read_status_after_round bus now timeout d w))
      → (acquire_phase d.progress.phase ≡ invalid → P (invalid_round now d w))
      → P (acquire_round bus now timeout d w)
  unfolding acquire_round
  acquire_round_cases P now timeout d w a b c e f = go (acquire_phase d.progress.phase) refl
    where
      go :
          (p : AcquirePhase)
          → acquire_phase d.progress.phase ≡ p
          → P (acquire_round bus now timeout d w)
      go status_before q = rw (q, acquire_round) (a q)
      go data_msb q = rw (q, acquire_round) (b q)
      go data_lsb q = rw (q, acquire_round) (c q)
      go status_after q = rw (q, acquire_round) (e q)
      go invalid q = rw (q, acquire_round) (f q)

  pub apply_round-EndsIdle :
      (kind : JobKind) (reset : Bool) (now timeout : ℕ) (d : Driver) (w : W)
      → EndsIdle (apply_round bus kind reset now timeout d w)
  unfolding reset_round identity_round replay_round finish_job clear_active_job
  apply_round-EndsIdle kind reset now timeout d w =
      apply_round_cases EndsIdle kind reset now timeout d w (λ _. ground arith) (λ _. ground arith)
        (λ _ _. ground arith)

  pub acquire_round-EndsIdle :
      (now timeout : ℕ) (d : Driver) (w : W) → EndsIdle (acquire_round bus now timeout d w)
  unfolding read_status_before_round read_data_msb_round read_data_lsb_round read_status_after_round
      invalid_round finish_job clear_active_job
  acquire_round-EndsIdle now timeout d w =
      acquire_round_cases EndsIdle now timeout d w (λ _. ground arith) (λ _. ground arith)
        (λ _. ground arith) (λ _. ground arith) (λ _. refl)
