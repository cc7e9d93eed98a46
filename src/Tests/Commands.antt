-- ===== src/Tests/Commands.antt =====
-- The diagnostic command line at concrete lines, and over the counting bus.
use ldc.Base.{◌&&◌, ℕ, ◌≡◌, ◌⊎◌, refl, true, false, [], ◌∷◌, some, arith, not}
use ldc.Status.{ok_status, is_ok, is_in_progress}
use ldc.Types.{AppliedConfigState, JobKind, no_operation_result, no_sample_batch}
use ldc.Cli.{CommandId}
use ldc.Cli.Text.{codes, parse_line, scan, scan_byte, parsed}
use ldc.Cli.Words.{line_of, parse_line-line_of}
use ldc.Cli.Arguments.{AreArguments, parse_line-AreArguments}
use ldc.Cli.Number.{parse_unsigned}
use ldc.Cli.Digits.{place_value, bounded, parse_unsigned-decimal}
use ldc.Cli.State.{
  no_bus_info, no_pending_operation, no_session_stats, OperationOwner, SessionKind, SessionPhase,
  no_session, Cli, Platform,
}
use ldc.Cli.Schedule.{
  admitted, next_operation_id, start_kind, is_session, is_owned, schedule_command_job,
  schedule_session_acquire, schedule_session_job,
}
use ldc.Cli.Identity.{
  advance_probe_session, advance_identity_stress_session, advance_reset_stress_session,
}
use ldc.Cli.BusStress.{
  requested_hz, switch_frequency, restore_frequency, advance_bus_frequency_stress_session,
}
use ldc.Cli.Verify.{advance_dump_session, advance_verify_session}
use ldc.Cli.Transfers.{CountsCalls, AtMostOne, session_step_cost}
use ldc.Cli.Admission.{Correlated, schedule-Correlated}
use ldc.Cli.Access.{register_access, is_unavailable, register_access-valid}
use ldc.Registers.{is_valid_register_address}
use ldc.Cli.Sampling.{
  advance_sampling_session, sampling_over, due_sample, sample_step, acquire_sample,
  deadline_reached,
}
use ldc.Jobs.{start_acquire, start_job, first_phase}
use ldc.Driver.{operation_id_in_use}
use ldc.Cli.Sampling.Steps.{Steps, advance_sampling_session-Steps}
use ldc.Cli.Staged.{reset_staged_profile, reset-commits}
use ldc.Lifecycle.{update_desired_config}
use ldc.Tests.Facts.{profile-is_ok}
use ldc.Cli.Stop.{stop_active_work, stop_active_work-idle}
use ldc.Cli.Restore.{IsAt, bus_step-IsAt}
use ldc.Types.{no_job_progress}
use ldc.Tests.Fixtures.{profile, counting_bus, counting_bus-Charges, started}

parse_line-line_of_example :
    parse_line (line_of (codes "wreg") (codes "0x1A" ∷ codes "5" ∷ []))
    ≡ some (codes "wreg" ∷ codes "0x1A" ∷ codes "5" ∷ [])
parse_line-line_of_example =
    parse_line-line_of (codes "wreg") (codes "0x1A" ∷ codes "5" ∷ []) refl (omega arith)
      (omega arith)

parse_line-AreArguments_example :
    AreArguments (codes " init  500") (codes "init" ∷ codes "500" ∷ [])
unfolding parse_line scan scan_byte parsed
parse_line-AreArguments_example =
    parse_line-AreArguments (codes " init  500") (codes "init" ∷ codes "500" ∷ []) refl

parse_unsigned-decimal_example :
    parse_unsigned (0x35 ∷ codes "00") 60000 ≡ bounded (place_value 10 (0x35 ∷ codes "00")) 60000
parse_unsigned-decimal_example = parse_unsigned-decimal 0x35 (codes "00") 60000 refl (omega arith)

-- A platform over the counting bus, whose frequency is always 100 kHz.
abbrev platform : Platform ℕ
platform = record {
  bus = counting_bus;
  has_now_ms = true;
  now_ms = λ w. w;
  has_i2c_bus_info = true;
  i2c_bus_info = λ w. record no_bus_info { open_bus = true; frequency_hz = 100000 };
  has_i2c_set_frequency = true;
  i2c_set_frequency = λ hz w. (ok_status, w);
}

platform-CountsCalls : CountsCalls platform (λ w. w)
platform-CountsCalls = record { transfers = counting_bus-Charges; frequency = λ hz w. omega arith }

-- A session of three frequency changes, over a driver without a job.
abbrev idle : Cli
idle = record {
  device = record started { progress = no_job_progress };
  next_operation_id = 18446744073709551615;
  next_session_id = 1;
  pending = no_pending_operation;
  session = record no_session {
    kind = SessionKind.stress_bus_freq;
    phase = SessionPhase.stress_bus_freq_switch;
    count = 3;
    initial_frequency_hz = 400000;
  };
  last_result = no_operation_result;
  last_batch = no_sample_batch;
  has_last_result = false;
  has_last_batch = false;
  staged_config = profile;
  staged_initialized = false;
  staged_dirty = false;
  verbose = false;
  prompt_deferred = false;
  last_now_ms = 0;
  reports = [];
}

session_step_cost_example :
    AtMostOne platform (λ w. w) platform-CountsCalls 0 (advance_probe_session platform idle 0)
    × AtMostOne platform (λ w. w) platform-CountsCalls 0 (advance_dump_session platform idle 0)
    × AtMostOne platform
        (λ w. w)
        platform-CountsCalls
        0
        (advance_verify_session platform false idle 0)
    × AtMostOne platform
        (λ w. w)
        platform-CountsCalls
        0
        (advance_identity_stress_session platform idle 0)
    × AtMostOne platform
        (λ w. w)
        platform-CountsCalls
        0
        (advance_reset_stress_session platform idle 0)
    × AtMostOne platform
        (λ w. w)
        platform-CountsCalls
        0
        (advance_bus_frequency_stress_session platform idle 0)
session_step_cost_example = session_step_cost platform (λ w. w) platform-CountsCalls false idle 0

idle-Correlated : Correlated idle
idle-Correlated = record {
  active = refl;
  same_id = refl;
  same_kind = λ h. absurd (ground (arith, h));
  next_id = refl;
}

schedule-Correlated_example :
    Correlated (schedule_command_job platform CommandId.init JobKind.initialize 0 500 idle 7).1
    × Correlated (schedule_session_acquire platform idle 7).1
    × Correlated (schedule_session_job platform JobKind.initialize idle 7).1
schedule-Correlated_example =
    schedule-Correlated platform CommandId.init JobKind.initialize 0 500 idle 7 idle-Correlated

bus_step-IsAt_example :
    let s = switch_frequency platform idle 7 in
    let r = restore_frequency platform idle 7 in
    (IsAt (platform.i2c_bus_info s.1) (requested_hz idle.session)
      ⊎ (is_owned s.0.pending.owner ≡ false))
    × (IsAt (platform.i2c_bus_info r.1) idle.session.initial_frequency_hz
        ⊎ (is_owned r.0.pending.owner ≡ false))
bus_step-IsAt_example = bus_step-IsAt platform idle 7 refl

register_access-valid_example :
    is_unavailable (register_access 0x1D) ≡ not (is_valid_register_address 0x1D)
register_access-valid_example = register_access-valid 0x1D

-- A rate measurement on a device that is awake, whose next sample is due at 5.
abbrev sampling : Cli
sampling = record idle {
  device = record idle.device { applied_state = AppliedConfigState.applied_active };
  session = record no_session {
    kind = SessionKind.sample_rate;
    phase = SessionPhase.wait_interval;
    channels = 1;
    count = 3;
    next_due_ms = 5;
    stats = record no_session_stats { requested = 3; completed = 1 };
  };
}

-- At 7 it asks for its acquisition.
sampling_acquires : (advance_sampling_session platform 7 sampling 7).pending.kind ≡ JobKind.acquire
unfolding advance_sampling_session sampling_over due_sample sample_step acquire_sample
    deadline_reached schedule_session_acquire admitted next_operation_id start_kind start_acquire
    start_job first_phase operation_id_in_use is_in_progress
sampling_acquires = refl

advance_sampling_session-Steps_example :
    Steps 7 sampling (advance_sampling_session platform 7 sampling 7)
advance_sampling_session-Steps_example =
    advance_sampling_session-Steps platform 7 sampling 7
      (record {
        clock = omega arith;
        due = omega arith;
        ready = omega arith;
        started = omega arith;
      })
      refl refl

reset-commits_example :
    let staged = (reset_staged_profile profile idle).staged_config in
    let r = update_desired_config staged idle.device in (is_ok r.0 ≡ true) × (r.1.config ≡ staged)
unfolding reset_staged_profile
reset-commits_example = reset-commits profile idle refl refl refl refl profile-is_ok

-- A command line that has admitted a command's job.
abbrev waiting : Cli
waiting = record idle {
  device = started;
  session = no_session;
  pending = record no_pending_operation { owner = OperationOwner.command; id = 7 };
}

stop_active_work-idle_example :
    let e = stop_active_work platform waiting 7 in
    ((is_owned e.pending.owner && e.device.progress.active) ≡ false)
    × ((is_session e.session.kind && not (is_owned e.pending.owner)) ≡ false)
stop_active_work-idle_example = stop_active_work-idle platform waiting 7 refl refl
