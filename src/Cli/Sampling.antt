-- ===== src/Cli/Sampling.antt =====
-- examples/common/Ldc1614Cli.cpp: the session that acquires samples at an interval.
pub mod Due
pub mod Steps
use ldc.Base.{
  ℕ, ◌+◌, ◌*◌, ◌^◌, Bool, true, false, ◌&&◌, ◌||◌, not, ◌==◌, ltb, leb, if◌then◌else◌, u64,
  if_cases,
}
use ldc.Status.{Status, Err, is_in_progress, error, ok_status}
use ldc.Clock.{sub64}
use ldc.Cli.State.{SessionKind, SessionPhase, DiagnosticSession, Outcome, Cli, Platform}
use ldc.Cli.Schedule.{schedule_session_acquire, is_sample_rate, job_deadline_ms}
use ldc.Cli.Sessions.{finish_session, finish_by_failures}
use ldc.Cli.Identity.{failed_with, next32}

-- `static_cast<int64_t>(now - deadline) >= 0`.
unfoldable pub deadline_reached : ℕ → ℕ → Bool
deadline_reached now deadline = ltb (sub64 now deadline) (2 ^ 63)

abbrev pub is_soak : SessionKind → Bool
is_soak SessionKind.soak = true
is_soak _ = false

abbrev pub is_wait_interval : SessionPhase → Bool
is_wait_interval SessionPhase.wait_interval = true
is_wait_interval _ = false

abbrev pub is_sample_ready : SessionPhase → Bool
is_sample_ready SessionPhase.sample_ready = true
is_sample_ready _ = false

-- The session has run for its seconds, or has made its acquisitions.
unfoldable pub sampling_over : ℕ → DiagnosticSession → Bool
sampling_over now s =
    if is_soak s.kind
    then leb (s.count * 1000) (sub64 now s.stats.started_ms)
    else leb s.stats.requested s.stats.completed

-- A rate measurement whose next sample is due turns to it.
unfoldable pub due_sample : ℕ → DiagnosticSession → DiagnosticSession
due_sample now s =
    if is_wait_interval s.phase && deadline_reached now s.next_due_ms && is_sample_rate s.kind
    then record s {
      phase = SessionPhase.sample_ready;
      ready_deadline_ms = u64 (now + job_deadline_ms);
      sample_ready_checks = 0;
    }
    else s

module _ {W : Type 0} (platform : Platform W) where
  -- A sample that cannot be had, and the end of the session.
  unfoldable pub fail_sample : Status → Cli → W → Cli
  fail_sample status c w =
      let s = c.session in
      let t = failed_with status s.stats in
      finish_session platform status Outcome.failed
        (record c { session = record s { stats = record t { completed = next32 t.completed } } }) w

  unfoldable pub acquire_sample : Cli → W → Cli
  acquire_sample c w =
      let r = schedule_session_acquire platform c w in
      if is_in_progress r.0 then r.1 else fail_sample r.0 r.1 w

  unfoldable pub sample_step : ℕ → Cli → W → Cli
  sample_step now c w =
      let s = c.session in
      if is_sample_rate s.kind && is_sample_ready s.phase
      then (if deadline_reached now s.ready_deadline_ms
          then fail_sample (error Err.timeout) c w
          else acquire_sample c w)
      else if not (is_wait_interval s.phase) || not (deadline_reached now s.next_due_ms)
      then c
      else acquire_sample c w

  unfoldable pub advance_sampling_session : ℕ → Cli → W → Cli
  advance_sampling_session now c w =
      let s = c.session in
      if s.stop_requested
      then finish_session platform (error Err.cancelled) Outcome.cancelled c w
      else if sampling_over now s
      then finish_by_failures platform c w
      else sample_step now (record c { session = due_sample now s }) w
