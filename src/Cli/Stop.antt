-- ===== src/Cli/Stop.antt =====
-- examples/common/Ldc1614Cli.cpp: the cancellation of what runs behind the command line.
use ldc.Base.{◌≡◌, Bool, true, false, ◌&&◌, not, if◌then◌else◌, arith}
use ldc.Status.{Err, is_ok, error}
use ldc.Driver.{Driver, clear_active_job}
use ldc.Jobs.{cancel_job, finish_job, push_result}
use ldc.Cli.State.{OperationOwner, Outcome, Cli, Platform}
use ldc.Cli.Schedule.{is_owned, is_session}
use ldc.Cli.Sessions.{record_session_failure, finish_session}

abbrev pub owned_by_session : OperationOwner → Bool
owned_by_session OperationOwner.session = true
owned_by_session _ = false

abbrev pub owned_by_command : OperationOwner → Bool
owned_by_command OperationOwner.command = true
owned_by_command _ = false

module _ {W : Type 0} (platform : Platform W) where
  unfoldable pub stop_session : Cli → W → Cli
  stop_session c w =
      let s = c.session in
      let stopping = record c { session = record s { stop_requested = true } } in
      let cancelled = cancel_job c.device in
      let after = record stopping { device = cancelled.1 } in
      let failing = record after {
        session = record after.session { stats = record_session_failure cancelled.0 s.stats };
      } in
      if owned_by_session c.pending.owner && c.device.progress.active
      then (if is_ok cancelled.0
          then after
          else finish_session platform cancelled.0 Outcome.failed failing w)
      else if not (is_owned c.pending.owner)
      then finish_session platform (error Err.cancelled) Outcome.cancelled stopping w
      else stopping

  unfoldable pub stop_active_work : Cli → W → Cli
  stop_active_work c w =
      if is_session c.session.kind
      then stop_session c w
      else if owned_by_command c.pending.owner
      then record c { device = (cancel_job c.device).1 }
      else c

cancel_job-idle : (d : Driver) → (cancel_job d).1.progress.active ≡ false
unfolding cancel_job finish_job push_result clear_active_job
cancel_job-idle d = ground arith

module _ {W : Type 0} (platform : Platform W) where
  -- After a stop no job runs for an operation that is pending, and a session that waits for none is
  -- over. No operation of a command is pending beside a session, nor one of a session without it.
  pub stop_active_work-idle :
      (c : Cli) (w : W)
      → (is_session c.session.kind && owned_by_command c.pending.owner) ≡ false
      → (not (is_session c.session.kind) && owned_by_session c.pending.owner) ≡ false
      → let e = stop_active_work platform c w in
        ((is_owned e.pending.owner && e.device.progress.active) ≡ false)
        × ((is_session e.session.kind && not (is_owned e.pending.owner)) ≡ false)
  unfolding stop_active_work stop_session finish_session
  stop_active_work-idle c w h k = ground (arith, h, k, cancel_job-idle c.device)
