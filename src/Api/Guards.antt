-- ===== src/Api/Guards.antt =====
-- What the public operations of src/LDC1614.cpp do while a job is active, and what ends a job
-- without a transfer.
use ldc.Base.{ℕ, ◌≡◌, true, false, Bool, ◌++◌, [], ◌∷◌, arith, refl, ◌∙◌, ap}
use ldc.Status.{Status, Err, error}
use ldc.Types.{TerminalOutcome}
use ldc.Driver.{Driver, clear_active_job}
use ldc.Bus.{Bus}
use ldc.Jobs.{
  start_initialize, start_apply_config, start_reset_and_reapply, start_acquire, start_job,
  terminal_result, abandon_writes, finish_job,
}
use ldc.Lifecycle.{bind, update_desired_config}
use ldc.Direct.{
  read_device_status, read_data_ready, sleep, wake, read_register16, read_init_drive_current,
  write_register16,
}
use ldc.Poll.{poll, due_or_past}
use ldc.Api.{Call, ends, cancels, takes, reads_intb, polls, invalidates, step}
use ldc.Invariant.{Inv}
use ldc.Invariant.Polls.{abandon_writes-Inv}
use ldc.Invariant.Queue.{queued, finish_job-queued}

-- The calls that an active job excludes.
abbrev pub is_exclusive : Call → Bool
is_exclusive ends = false
is_exclusive cancels = false
is_exclusive takes = false
is_exclusive reads_intb = false
is_exclusive (polls now most) = false
is_exclusive (invalidates reason) = false
is_exclusive _ = true

finish_job-idle :
    (o : TerminalOutcome) (s : Status) (t : ℕ) (d : Driver)
    → (finish_job o s t d).1.progress.active ≡ false
unfolding finish_job clear_active_job
finish_job-idle o s t d = refl

abandon_writes-queued :
    (s : Status) (d : Driver)
    → (queued (abandon_writes s d) ≡ queued d)
      × ((abandon_writes s d).progress.operation_id ≡ d.progress.operation_id)
unfolding abandon_writes
abandon_writes-queued s d = ground arith

module _ {W : Type 0} (bus : Bus W) where
  -- While a job is active on a bound driver, every call but `poll`, `cancelJob`, `takeResult`,
  -- `readIntb`, `invalidateAppliedState` and `end` leaves the driver as it is and makes no transfer.
  pub step-excluded :
      (c : Call) (d : Driver) (w : W)
      → d.bound ≡ true
      → d.progress.active ≡ true
      → is_exclusive c ≡ true
      → step bus c d w ≡ (d, w)
  unfolding step bind update_desired_config sleep wake read_device_status read_data_ready
      read_register16 read_init_drive_current write_register16 start_initialize start_apply_config
      start_reset_and_reapply start_acquire start_job
  step-excluded c d w b a e = ground arith

  -- A poll of an active job at or after its deadline makes no transfer, returns Err::TIMEOUT, ends
  -- the job and queues its one result, with the outcome TIMED_OUT and the id of the job. The driver
  -- satisfies the invariants of `Invariant`.
  pub poll-due :
      (now most : ℕ) (d : Driver) (w : W)
      → Inv d
      → d.progress.active ≡ true
      → due_or_past now d.progress.deadline_ms ≡ true
      → let p = poll bus now most d w in
        let r =
          terminal_result TerminalOutcome.timed_out
            (error Err.timeout)
            now
            (abandon_writes (error Err.timeout) d) in
        (p.0 ≡ error Err.timeout)
        × (p.2 ≡ w)
        × (p.1.progress.active ≡ false)
        × (queued p.1 ≡ queued d ++ (r ∷ []))
        × (r.operation_id ≡ d.progress.operation_id)
  unfolding poll finish_job terminal_result abandon_writes
  poll-due now most d w v a late =
      let e = abandon_writes (error Err.timeout) d in
      let kept = abandon_writes-Inv (error Err.timeout) d v in
      simp (a, late)
        (
          refl,
          refl,
          finish_job-idle TerminalOutcome.timed_out (error Err.timeout) now e,
          finish_job-queued TerminalOutcome.timed_out (error Err.timeout) now e kept.0.queue
                (kept.0.queue.reserved (kept.1 ∙ a))
              ∙ ap
                  (λ q.
                    q ++ (terminal_result TerminalOutcome.timed_out (error Err.timeout) now e ∷ []))
                  (abandon_writes-queued (error Err.timeout) d).0,
          (abandon_writes-queued (error Err.timeout) d).1,
        )
