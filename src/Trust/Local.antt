-- ===== src/Trust/Local.antt =====
-- The promise of the applied state, and the operations of src/LDC1614.cpp without a transfer.
use ldc.Base.{if_cases, ℕ, ◌==◌, ◌≡◌, false, not, ◌&&◌, ◌||◌, List, refl, arith}
use ldc.Status.{Status, Err, error}
use ldc.Config.{Config, is_empty}
use ldc.Validate.{exceeds}
use ldc.Types.{JobKind, is_active, is_unknown}
use ldc.Driver.{Driver, clear_active_job, operation_id_in_use, reserve_result_slot}
use ldc.Jobs.{
  start_job, first_phase, start_initialize, start_apply_config, start_reset_and_reapply,
  start_acquire, cancel_job, take_result, invalidate_applied_state, finish_job,
}
use ldc.Lifecycle.{bind, end, update_desired_config}
use ldc.Trust.{Trusted, TrustInv}
use ldc.Trust.Writes.{finish_job-TrustInv}
use ldc.Trust.Polls.{abandon_writes-Trusted}

-- A driver without a job has nothing to replay.
pub idle-TrustInv :
    (h : ℕ → List ℕ) (d : Driver)
    → d.progress.active ≡ false
    → Trusted h d.applied_state d.config
    → TrustInv h d
idle-TrustInv h d a p = record { trusted = p; replayed = λ b. absurd (ground arith) }

-- A job begins with nothing replayed.
first_phase-TrustInv :
    (h : ℕ → List ℕ) (kind : JobKind) (d : Driver)
    → d.job_step ≡ 0
    → Trusted h d.applied_state d.config
    → TrustInv h (first_phase kind d).1
unfolding first_phase clear_active_job
first_phase-TrustInv h JobKind.none d z p = record {
  trusted = p;
  replayed = λ _ _ j q. absurd (omega arith);
}
first_phase-TrustInv h JobKind.initialize d z p = record {
  trusted = p;
  replayed = λ _ _ j q. absurd (omega arith);
}
first_phase-TrustInv h JobKind.apply_config d z p = record {
  trusted = p;
  replayed = λ _ _ j q. absurd (grind arith);
}
first_phase-TrustInv h JobKind.reset_and_reapply d z p = record {
  trusted = p;
  replayed = λ _ _ j q. absurd (grind arith);
}
first_phase-TrustInv h JobKind.acquire d z p = record {
  trusted = p;
  replayed = λ _ _ j q. absurd (grind arith);
}

start_job-TrustInv :
    (h : ℕ → List ℕ) (kind : JobKind) (channels id deadline maximum : ℕ) (d : Driver)
    → TrustInv h d
    → TrustInv h (start_job kind channels id deadline maximum d).1
unfolding start_job clear_active_job
start_job-TrustInv h kind channels id deadline maximum d v =
    let Keeps : Status × Driver → Type 0 = λ p. TrustInv h p.1 in
    if_cases Keeps (not d.bound) _ _ (λ _. v)
      (λ _.
        if_cases Keeps (id == 0) _ _ (λ _. v)
          (λ _.
            if_cases Keeps (operation_id_in_use d id) _ _ (λ _. v)
              (λ _.
                if_cases Keeps d.progress.active _ _ (λ _. v)
                  (λ _.
                    if_cases Keeps (not (reserve_result_slot d)) _ _ (λ _. v)
                      (λ _. first_phase-TrustInv h kind _ refl v.trusted)))))

pub cancel_job-TrustInv : (h : ℕ → List ℕ) (d : Driver) → TrustInv h d → TrustInv h (cancel_job d).1
unfolding cancel_job
cancel_job-TrustInv h d v =
    if_cases (λ (p : Status × Driver). TrustInv h p.1) (not d.progress.active) _ _ (λ _. v)
      (λ _.
        finish_job-TrustInv h _ _ 0 _ (abandon_writes-Trusted h (error Err.cancelled) d v.trusted))

pub take_result-TrustInv :
    (h : ℕ → List ℕ) (d : Driver) → TrustInv h d → TrustInv h (take_result d).driver
unfolding take_result
take_result-TrustInv h d v = ground (arith, v)

pub bind-TrustInv :
    (h : ℕ → List ℕ) (c : Config) (d : Driver) → TrustInv h d → TrustInv h (bind c d).1
unfolding bind clear_active_job
bind-TrustInv h c d v = ground (arith, v)

pub end-TrustInv : (h : ℕ → List ℕ) (d : Driver) → TrustInv h (end d)
unfolding end clear_active_job
end-TrustInv h d = ground arith

pub update-TrustInv :
    (h : ℕ → List ℕ) (c : Config) (d : Driver)
    → TrustInv h d
    → TrustInv h (update_desired_config c d).1
unfolding update_desired_config
update-TrustInv h c d v = ground (arith, v)

pub invalidate-TrustInv :
    (h : ℕ → List ℕ) (r : Status) (d : Driver) → TrustInv h (invalidate_applied_state r d)
unfolding invalidate_applied_state cancel_job finish_job clear_active_job
invalidate-TrustInv h r d = ground arith

pub start_call-TrustInv :
    (h : ℕ → List ℕ) (channels id deadline : ℕ) (d : Driver)
    → TrustInv h d
    → TrustInv h (start_initialize id deadline d).1
      × TrustInv h (start_apply_config id deadline d).1
      × TrustInv h (start_reset_and_reapply id deadline d).1
      × TrustInv h (start_acquire channels id deadline d).1
unfolding start_initialize start_apply_config start_reset_and_reapply start_acquire
start_call-TrustInv h channels id deadline d v =
    let Keeps : Status × Driver → Type 0 = λ p. TrustInv h p.1 in
    (
      start_job-TrustInv h _ _ id deadline _ d v,
      if_cases Keeps (d.bound && is_unknown d.applied_state) _ _ (λ _. v)
          (λ _. start_job-TrustInv h _ _ id deadline _ d v),
      start_job-TrustInv h _ _ id deadline _ d v,
      if_cases Keeps (not d.bound) _ _ (λ _. v)
          (λ _.
            if_cases Keeps (not (is_active d.applied_state)) _ _ (λ _. v)
              (λ _.
                if_cases Keeps (is_empty channels || exceeds channels d.config.channels) _ _
                  (λ _. v) (λ _. start_job-TrustInv h _ channels id deadline _ d v))),
    )
