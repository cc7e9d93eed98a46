-- ===== src/Cli/Sessions.antt =====
-- examples/common/Ldc1614Cli.cpp: the start and the end of a diagnostic session, and its statistics.
use ldc.Base.{ℕ, ◌+◌, Bool, true, false, ◌&&◌, ◌||◌, not, ◌==◌, ltb, if◌then◌else◌, u32, u64, ◌∷◌}
use ldc.Status.{Status, Err, ok_status, error}
use ldc.Config.{ChannelMask, is_empty}
use ldc.Clock.{sub64}
use ldc.Validate.{exceeds}
use ldc.Types.{is_active}
use ldc.Bus.{u32_max}
use ldc.Cli.{CommandId}
use ldc.Cli.State.{
  SessionKind, SessionPhase, DiagnosticSession, no_session, I2cBusInfo, SessionStats,
  no_session_stats, Outcome, Cli, Platform,
}
use ldc.Cli.Schedule.{
  asynchronous_work_active, next_session_id, now_ms, first_ldc_address, min_i2c_frequency_hz,
  max_i2c_frequency_hz,
}

unfoldable pub record_session_failure : Status → SessionStats → SessionStats
record_session_failure status s = record s {
  has_failure = true;
  first_failure = if s.has_failure then s.first_failure else status;
  last_failure = status;
}

unfoldable pub record_latency : ℕ → ℕ → SessionStats → SessionStats
record_latency started_ms completed_ms s =
    let elapsed64 = sub64 completed_ms started_ms in
    let elapsed = if ltb u32_max elapsed64 then u32_max else elapsed64 in
    record s {
      latency_samples = u32 (s.latency_samples + 1);
      latency_total_ms = u64 (s.latency_total_ms + elapsed);
      minimum_latency_ms =
          if ltb elapsed s.minimum_latency_ms then elapsed else s.minimum_latency_ms;
      maximum_latency_ms =
          if ltb s.maximum_latency_ms elapsed then elapsed else s.maximum_latency_ms;
    }

abbrev needs_bound_device : SessionKind → Bool
needs_bound_device SessionKind.discover = false
needs_bound_device SessionKind.self_test = false
needs_bound_device _ = true

abbrev is_sampling : SessionKind → Bool
is_sampling SessionKind.watch = true
is_sampling SessionKind.sample_rate = true
is_sampling SessionKind.stress = true
is_sampling SessionKind.stress_mix = true
is_sampling SessionKind.soak = true
is_sampling _ = false

abbrev pub is_bus_stress : SessionKind → Bool
is_bus_stress SessionKind.stress_bus_freq = true
is_bus_stress _ = false

abbrev is_none : SessionKind → Bool
is_none SessionKind.none = true
is_none _ = false

-- The switch over the kinds.
abbrev pub first_session_phase : SessionKind → SessionPhase
first_session_phase SessionKind.probe = SessionPhase.probe_manufacturer
first_session_phase SessionKind.discover = SessionPhase.discover_manufacturer
first_session_phase SessionKind.dump_config = SessionPhase.dump_register
first_session_phase SessionKind.dump_all = SessionPhase.dump_register
first_session_phase SessionKind.verify = SessionPhase.verify_register
first_session_phase SessionKind.watch = SessionPhase.wait_interval
first_session_phase SessionKind.sample_rate = SessionPhase.wait_interval
first_session_phase SessionKind.stress = SessionPhase.wait_interval
first_session_phase SessionKind.soak = SessionPhase.wait_interval
first_session_phase SessionKind.stress_mix = SessionPhase.mix_status
first_session_phase SessionKind.stress_id = SessionPhase.stress_id_manufacturer
first_session_phase SessionKind.stress_reset = SessionPhase.stress_reset_schedule
first_session_phase SessionKind.stress_bus_freq = SessionPhase.stress_bus_freq_switch
first_session_phase SessionKind.self_test = SessionPhase.self_pure
first_session_phase SessionKind.none = SessionPhase.none

abbrev waits : SessionKind → Bool
waits SessionKind.watch = true
waits SessionKind.sample_rate = true
waits SessionKind.stress = true
waits SessionKind.soak = true
waits _ = false

abbrev is_cancelled : Err → Bool
is_cancelled Err.cancelled = true
is_cancelled _ = false

module _ {W : Type 0} (platform : Platform W) where
  -- The session as its summary shows it.
  unfoldable pub final_session : Status → DiagnosticSession → W → DiagnosticSession
  final_session status s w =
      if is_bus_stress s.kind
      then record s {
        active_frequency_hz =
            if platform.has_i2c_bus_info
            then (platform.i2c_bus_info w).frequency_hz
            else s.active_frequency_hz;
        restore_status = if is_cancelled status.code then status else s.restore_status;
      }
      else s

  -- The report, and no session.
  unfoldable pub finish_session : Status → Outcome → Cli → W → Cli
  finish_session status outcome c w = record c {
    session = no_session;
    reports =
        record { session = final_session status c.session w; status = status; outcome = outcome }
        ∷ c.reports;
  }

  -- Success where nothing has failed, else the last failure.
  unfoldable pub finish_by_failures : Cli → W → Cli
  finish_by_failures c w =
      if c.session.stats.failed == 0
      then finish_session ok_status Outcome.success c w
      else finish_session c.session.stats.last_failure Outcome.failed c w

  -- The session of a kind, without its checks.
  unfoldable pub new_session :
      SessionKind → CommandId → ℕ → ChannelMask → ℕ → ℕ → ℕ → I2cBusInfo → W → DiagnosticSession
  new_session kind command count channels period_ms channel id bus w =
      let started = now_ms platform w in
      let s = no_session in
      record s {
        kind = kind;
        phase = first_session_phase kind;
        command = command;
        id = id;
        channels = channels;
        count = count;
        period_ms = period_ms;
        channel = channel;
        discovery_address = first_ldc_address;
        next_due_ms = if waits kind then started else 0;
        initial_frequency_hz = if is_bus_stress kind then bus.frequency_hz else 0;
        active_frequency_hz = if is_bus_stress kind then bus.frequency_hz else 0;
        stats = record no_session_stats { requested = count; started_ms = started };
      }

  unfoldable pub start_session :
      SessionKind → CommandId → ℕ → ChannelMask → ℕ → ℕ → Cli → W → Status × Cli
  start_session kind command count channels period_ms channel c w =
      let d = c.device in
      let bus = platform.i2c_bus_info w in
      let next = next_session_id c in
      let started = record next.1 {
        session = new_session kind command count channels period_ms channel next.0 bus w;
      } in
      if asynchronous_work_active c
      then (error Err.busy, c)
      else if not platform.has_now_ms
      then (error Err.invalid_config, c)
      else if needs_bound_device kind && not d.bound
      then (error Err.not_bound, c)
      else if is_sampling kind && not (is_active d.applied_state)
      then (error Err.config_dirty, c)
      else if is_sampling kind && (is_empty channels || exceeds channels d.config.channels)
      then (error Err.invalid_param, c)
      else if is_bus_stress kind
          && (not platform.has_i2c_bus_info || not platform.has_i2c_set_frequency)
      then (error Err.invalid_config, c)
      else if is_bus_stress kind
          && (not bus.open_bus
              || ltb bus.frequency_hz min_i2c_frequency_hz
              || ltb max_i2c_frequency_hz bus.frequency_hz)
      then (error Err.invalid_config, c)
      else if is_none kind
      then (error Err.invalid_param, started)
      else (error Err.in_progress, record started { prompt_deferred = true })
